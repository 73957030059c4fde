-- ===== src/Client/Fields.antt =====
-- `Header2Fields` of pkg/util/util.go, which `DialWs` logs after a dial that failed: the header is a
-- list of its keys in the order of the loop, and what `fmt.Sprintf("%s[%d]", …)` makes is a parameter.
use relaybaton.Common.{
  ℕ, ◌+◌, String, ◌≡◌, refl, ◌≢◌, Option, none, some, List, [], ◌∷◌, Bytes, All, same_nat,
  same_string, same_bytes,
}
use relaybaton.Common.Dict.{Dict, get, put, get-put}
use relaybaton.Config.Load.{Call, panics, returns}

data Field : Type 0 where
  text : String → Field
  bytes : Bytes → Field

module _ (numbered : String → ℕ → String) where
  -- The loop over the values of a key, from the i-th on.
  put_values : String → ℕ → List String → Dict String Field → Dict String Field
  put_values k i [] fields = fields
  put_values k i (v ∷ vs) fields = put_values k (i + 1) vs (put (numbered k i) (text v) fields)

  -- The first value is taken, whether there is one or not.
  put_key : String → List String → Dict String Field → Call (Dict String Field)
  unfolding put_values
  put_key k [] fields = panics
  put_key k (v ∷ []) fields = returns (put k (text v) fields)
  put_key k (v ∷ w ∷ vs) fields = returns (put_values k 0 (v ∷ w ∷ vs) fields)

  put_keys : Dict String (List String) → Call (Dict String Field) → Call (Dict String Field)
  unfolding put_key
  put_keys header panics = panics
  put_keys [] (returns fields) = returns fields
  put_keys ((k, vs) ∷ header) (returns fields) = put_keys header (put_key k vs fields)

  put_body : Option Bytes → Call (Dict String Field) → Call (Dict String Field)
  put_body body panics = panics
  put_body none (returns fields) = returns fields
  put_body (some b) (returns fields) = returns (put "body" (bytes b) fields)

  -- What `ioutil.ReadAll` reads of the body, or its error, which is only logged.
  header_to_fields : Dict String (List String) → Option Bytes → Call (Dict String Field)
  unfolding put_keys put_body
  header_to_fields header body = put_body body (put_keys header (returns []))

  -- Every key of the header has a value.
  abbrev Filled : Dict String (List String) → Type 0
  Filled header = All (λ (e : String × List String). e.1 ≢ []) header

  put_key-returns :
      (k : String) (vs : List String) (fields : Dict String Field)
      → vs ≢ []
      → (d : Dict String Field) × (put_key k vs fields ≡ returns d)
  unfolding put_key
  put_key-returns k [] fields filled = absurd (filled refl)
  put_key-returns k (v ∷ []) fields filled = (put k (text v) fields, refl)
  put_key-returns k (v ∷ w ∷ vs) fields filled = (put_values k 0 (v ∷ w ∷ vs) fields, refl)

  put_keys-returns :
      (header : Dict String (List String)) (fields : Dict String Field)
      → Filled header
      → (d : Dict String Field) × (put_keys header (returns fields) ≡ returns d)
  unfolding put_keys
  put_keys-returns [] fields filled = (fields, refl)
  put_keys-returns ((k, vs) ∷ header) fields (filled, rest) =
      let (next, e) = put_key-returns k vs fields filled in
      let (d, done) = put_keys-returns header next rest in (d, rw (put_keys, e) done)

  -- A header whose keys all have a value is logged without a panic, and its body is among the fields
  -- wherever it can be read.
  header_to_fields-returns :
      (header : Dict String (List String)) (b : Bytes)
      → Filled header
      → (d : Dict String Field) × (header_to_fields header (some b) ≡ returns d)
        × (get "body" d ≡ some (bytes b))
  unfolding header_to_fields put_body
  header_to_fields-returns header b filled =
      let (d, e) = put_keys-returns header [] filled in
      (put "body" (bytes b) d, rw (e) refl, get-put {K = String} "body" "body" (bytes b) d)
