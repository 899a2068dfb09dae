-- ===== src/UltraHonk/Store/Keys.antt =====
-- A key that is stored is found again.
use crucible_prover.Base.{
  true, Result, ok, err, panicked, map_err, bind-eq-ok, ◌≡◌, refl, ◌==◌, text_eq, arith, Text,
}
use crucible_prover.External.{Sha256, Hex}
use crucible_prover.Machine.{Machine, Json}
use crucible_prover.Response.{VerificationKeyId}
use crucible_prover.UltraHonk.Words.{VkDocument, scheme_ultra_honk}
use crucible_prover.UltraHonk.Store.{
  VkStore, path_for, create_parent, serialize, put_document, of_scheme, put, get, contains,
}

pub map_err-ok :
    {E F A : Type 0} (f : E → F) (r : Result E A) {a : A} → map_err f r ≡ ok a → r ≡ ok a
map_err-ok f (ok b) h = ground arith
map_err-ok f (err e) h = cc
map_err-ok f panicked h = cc

module _ {S : Type 0} (sha : Sha256) (hex : Hex) (m : Machine S) (json : Json VkDocument) where
  -- What a `put` that succeeds did: the scheme was right, and the text of the document was written.
  record Stored (store : VkStore) (s' : S) (id : VerificationKeyId) (doc : VkDocument)
      : Type 0 where
    scheme : (doc.scheme == scheme_ultra_honk) ≡ true
    s1 : S
    text : Text
    serialized : json.to_string doc ≡ ok text
    written : m.write s1 (path_for sha hex store id) text ≡ ok s'

  put-Stored :
      (store : VkStore) (s s' : S) (id : VerificationKeyId) (doc : VkDocument)
      → put sha hex m json store s id doc ≡ ok s'
      → Stored store s' id doc
  unfolding put put_document serialize
  put-Stored store s s' id doc h =
      let path = path_for sha hex store id in
      let scheme : (doc.scheme == scheme_ultra_honk) ≡ true = ground arith in
      let h' : put_document sha hex m json s path doc ≡ ok s' = ground arith in
      let (s1, _, h1) = bind-eq-ok (create_parent sha hex m json s path) _ h' in
      let (text, t, h2) = bind-eq-ok (serialize sha hex m json path doc) _ h1 in
      record {
        scheme = scheme;
        s1 = s1;
        text = text;
        serialized = map_err-ok _ _ t;
        written = map_err-ok _ _ h2;
      }

  -- A verification key that `put` stored under an id is there afterwards, and `get` returns it.
  pub get-put :
      (store : VkStore) (s s' : S) (id : VerificationKeyId) (doc : VkDocument)
      → put sha hex m json store s id doc ≡ ok s'
      → (contains sha hex m json store s' id ≡ true) × (get sha hex m json store s' id ≡ ok doc)
  unfolding get contains of_scheme
  get-put store s s' id doc h =
      let w = put-Stored store s s' id doc h in
      let found = m.is_file-write w.s1 (path_for sha hex store id) w.text w.written in
      (
        found,
        rw
            (
              found,
              m.read-write w.s1 (path_for sha hex store id) w.text w.written,
              json.from_str-to_string doc w.serialized,
              w.scheme,
            )
            refl,
      )
