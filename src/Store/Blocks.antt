-- ===== src/Store/Blocks.antt =====
-- store.go: SaveBlock and GetBlock.
use coded_hotterstuff.Store.Puts.{apart, puts-wrote, puts}
use coded_hotterstuff.Wire.Data.RoundTrip.{unmarshal_data-marshal_data}
use coded_hotterstuff.Wire.Header.RoundTrip.{unmarshal_header-marshal_header}
use coded_hotterstuff.Wire.Header.{marshal_header}
use coded_hotterstuff.Wire.Certificate.RoundTrip.{unmarshal_certificate-marshal_certificate}
use coded_hotterstuff.Wire.Data.{marshal_data}
use coded_hotterstuff.Wire.Certificate.{marshal_certificate}
use coded_hotterstuff.Prelude.Bytes.{Bytes}
use coded_hotterstuff.Store.{
  parts_key, save_data, save_certificate, save_header, header_hash, data_key, cert_key, save_block,
  header_key, get_header, get_certificate, get_block, get_data,
}
use coded_hotterstuff.Types.{Data, Certificate, Header}
use coded_hotterstuff.Env.{IsMap, Env}
use coded_hotterstuff.Wire.Header.RoundTrip as HeaderRoundTrip
use coded_hotterstuff.Wire.Certificate.RoundTrip as CertificateRoundTrip
use coded_hotterstuff.Wire.Data.RoundTrip as DataRoundTrip
use coded_hotterstuff.Prelude.{◌≡◌, refl, ap, sym, ◌∙◌, List, [], ◌∷◌, some}

-- What SaveBlock writes.
abbrev block_writes : (env : Env) → Header → Certificate → Data → List (Bytes × Bytes)
block_writes env h c x =
    (header_key (header_hash env h), marshal_header h)
    ∷ (cert_key c.block, marshal_certificate c)
    ∷ (data_key (header_hash env h), marshal_data x)
    ∷ []

module _ (env : Env) (map : IsMap env) where
  get_header-found :
      (d : env.Db) (h : Header)
      → HeaderRoundTrip.IsEncodable h
      → env.db_get d (header_key (header_hash env h)) ≡ some (marshal_header h)
      → get_header env d (header_hash env h) ≡ some h
  unfolding get_header
  get_header-found d h e p = rw p (rw (unmarshal_header-marshal_header h e) refl)

  get_certificate-found :
      (d : env.Db) (c : Certificate)
      → CertificateRoundTrip.IsEncodable c
      → env.db_get d (cert_key c.block) ≡ some (marshal_certificate c)
      → get_certificate env d c.block ≡ some c
  unfolding get_certificate
  get_certificate-found d c e p = rw p (rw (unmarshal_certificate-marshal_certificate c e) refl)

  get_data-found :
      (d : env.Db) (hash : Bytes) (x : Data)
      → DataRoundTrip.IsEncodable x
      → env.db_get d (data_key hash) ≡ some (marshal_data x)
      → get_data env d hash ≡ some x
  unfolding get_data
  get_data-found d hash x e p = rw p (rw (unmarshal_data-marshal_data x e) refl)

  -- GetBlock gives back the block that SaveBlock saved, under the hash of its header, if its
  -- certificate is for that hash and its parts are as Go's types grant (with a signature that is nil
  -- or not empty).
  pub get_block-save_block :
      (d e : env.Db) (h : Header) (c : Certificate) (x : Data)
      → HeaderRoundTrip.IsEncodable h
      → CertificateRoundTrip.IsEncodable c
      → DataRoundTrip.IsEncodable x
      → c.block ≡ header_hash env h
      → save_block env d h c x ≡ some e
      → get_block env e (header_hash env h)
        ≡ some (record { header = some h; payload = some x; cert = some c })
  unfolding get_block save_block save_header save_certificate save_data puts header_key cert_key
      data_key parts_key
  get_block-save_block d e h c x eh ec ex same p =
      let header =
        get_header-found e h eh
          (puts-wrote env map [] (_ ∷ _ ∷ []) d e _ _ p (apart refl, (apart refl, tt))) in
      let cert : get_certificate env e (header_hash env h) ≡ some c =
        ap (λ (b : Bytes). get_certificate env e b) (sym same)
        ∙ get_certificate-found e c ec
            (puts-wrote env map (_ ∷ []) (_ ∷ []) d e _ _ p (apart refl, tt)) in
      let payload =
        get_data-found e (header_hash env h) x ex
          (puts-wrote env map (_ ∷ _ ∷ []) [] d e _ _ p tt) in
      rw header (rw cert (rw payload refl))
