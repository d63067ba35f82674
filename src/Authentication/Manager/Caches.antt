-- ===== src/Authentication/Manager/Caches.antt =====
-- The caches of JWTValidationClient.
use movie_reservation_agent.Prelude.{
  String, ◌≡◌, refl, ap, sym, none, some, Option-cases, inl, inr, eq_refl, ◌∙◌, arith,
}
use movie_reservation_agent.Exec.{Exn, Result, ok, err, Result-cases}
use movie_reservation_agent.Value.{Value, Fields}
use movie_reservation_agent.Authentication.Manager.{ValidationClient, JwtLibrary, get_oidc_metadata}
use movie_reservation_agent.Authentication.Claims.{TextLibrary}
use movie_reservation_agent.Authentication.Keys.{cached, with_entry}

pub cached-with_entry :
    (key : String) (v : Value) (cache : Fields) → cached key (with_entry key v cache) ≡ some v
cached-with_entry key v cache = rw (eq_refl key) refl

module _ {S : Type 0} (texts : TextLibrary) (lib : JwtLibrary S) (issuer : String) where
  get_oidc_metadata_known :
      (v : Value) (client : ValidationClient S)
      → cached issuer client.metadata_cache ≡ some v
      → get_oidc_metadata texts lib issuer client ≡ (ok v, client)
  unfolding get_oidc_metadata
  get_oidc_metadata_known v client h = rw h refl

  abbrev fetched : ValidationClient S → Result Value × S
  fetched client = lib.fetch (lib.get_well_known_url issuer) client.server

  get_oidc_metadata-fetched :
      (v : Value) (client : ValidationClient S)
      → cached issuer client.metadata_cache ≡ none
      → (fetched client).0 ≡ ok v
      → get_oidc_metadata texts lib issuer client ≡ (
        ok v,
        record client {
          server = (fetched client).1;
          metadata_cache = with_entry issuer v client.metadata_cache;
        },
      )
  unfolding get_oidc_metadata
  get_oidc_metadata-fetched v client missing e = rw (missing, e) refl

  get_oidc_metadata_failed :
      (x : Exn) (client : ValidationClient S)
      → cached issuer client.metadata_cache ≡ none
      → (fetched client).0 ≡ err x
      → (get_oidc_metadata texts lib issuer client).0 ≡ err x
  unfolding get_oidc_metadata
  get_oidc_metadata_failed x client missing e = rw (missing, e) refl

  -- Metadata that has been returned once for an issuer is returned again, without a call of the
  -- server and without a change of the client.
  pub get_oidc_metadata_again :
      (v : Value) (client : ValidationClient S)
      → let first = get_oidc_metadata texts lib issuer client in
        first.0 ≡ ok v → get_oidc_metadata texts lib issuer first.1 ≡ first
  get_oidc_metadata_again v client e = elim (Option-cases (cached issuer client.metadata_cache)) [
    | inr (w, there) ↦
        ap (λ r. get_oidc_metadata texts lib issuer r.1) (get_oidc_metadata_known w client there)
    | inl missing ↦ elim (Result-cases (fetched client).0) [
      | inl (w, found) ↦
          let once = get_oidc_metadata-fetched w client missing found in
          ap (λ r. get_oidc_metadata texts lib issuer r.1) once
          ∙ get_oidc_metadata_known w _ (cached-with_entry issuer w client.metadata_cache)
          ∙ sym once
      | inr (x, failed) ↦
          let both : err x ≡ ok v = sym (get_oidc_metadata_failed x client missing failed) ∙ e in
          absurd (ground (arith, both))
    ]
  ]
