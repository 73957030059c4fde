-- ===== src/Logging/Gorm.antt =====
-- What gorm logs, as `DBLogger` passes it on to logrus (pkg/log/db_logger.go). The values, the place of
-- the call and the numbers' texts are those of the libraries.
use relaybaton.Common.{
  ℕ, ◌+◌, ◌<◌, String, ◌≡◌, refl, ◌∙◌, false, some, List, [], ◌∷◌, ◌++◌, arith, length, ◌==◌,
  same_nat, same_string, same_bytes, eq_self,
}
use relaybaton.Common.Dict.{Dict, get, put, get-put}
use relaybaton.Logging.{LogrusLevel, info_level, warn_level, error_level, trace_level}

pub record Message {ℓ} (A : Type ℓ) : Type ℓ where
  pub level : LogrusLevel
  pub fields : Dict String A
  pub text : String

module _ {ℓ} {A : Type ℓ} (itoa : ℕ → String) where
  -- The loop over the objects, from the number n on.
  numbered : ℕ → List A → Dict String A → Dict String A
  numbered n [] m = m
  numbered n (b ∷ objs) m = numbered (n + 1) objs (put (itoa (n + 1)) b m)

  message_fields : A → List A → Dict String A
  unfolding numbered
  message_fields file objs = numbered 0 objs (put "real_file" file [])

  info : A → String → List A → Message A
  unfolding message_fields
  info file msg objs = record { level = info_level; fields = message_fields file objs; text = msg }

  warn : A → String → List A → Message A
  unfolding message_fields
  warn file msg objs = record { level = warn_level; fields = message_fields file objs; text = msg }

  error : A → String → List A → Message A
  unfolding message_fields
  error file msg objs = record {
    level = error_level;
    fields = message_fields file objs;
    text = msg;
  }

  -- `Trace`: the time that the query took, its rows and its text; the text of the entry is the error's.
  trace : A → A → A → A → String → Message A
  trace file duration rows sql text = record {
    level = trace_level;
    fields = ("real_file", file) ∷ ("duration", duration) ∷ ("rows", rows) ∷ ("sql", sql) ∷ [];
    text = text;
  }

  -- A key that is none of the numbers still to come is as before.
  get-numbered :
      (n : ℕ) (objs : List A) (m : Dict String A) (k : String)
      → ((j : ℕ) → n < j → (itoa j == k) ≡ false)
      → get k (numbered n objs m) ≡ get k m
  unfolding numbered
  get-numbered n [] m k other = refl
  get-numbered n (b ∷ objs) m k other =
      get-numbered (n + 1) objs (put (itoa (n + 1)) b m) k
        (λ j later. other j (omega (arith, later)))
      ∙ rw (get-put (itoa (n + 1)) k b m, other (n + 1) (omega arith)) refl

  module _ (distinct : (i j : ℕ) → i < j → (itoa j == itoa i) ≡ false) where
    numbered-append :
        (n : ℕ) (before after : List A) (b : A) (m : Dict String A)
        → get (itoa (n + length before + 1)) (numbered n (before ++ b ∷ after) m) ≡ some b
    unfolding numbered
    numbered-append n [] after b m =
        let first : n + length {A = A} [] + 1 ≡ n + 1 = omega arith in
        rw (first) (
          get-numbered (n + 1) after (put (itoa (n + 1)) b m) (itoa (n + 1)) (distinct (n + 1))
          ∙ rw (get-put (itoa (n + 1)) (itoa (n + 1)) b m, eq_self (itoa (n + 1))) refl)
    numbered-append n (a ∷ before) after b m =
        let shift : n + length (a ∷ before) + 1 ≡ n + 1 + length before + 1 = omega arith in
        rw (shift) (numbered-append (n + 1) before after b (put (itoa (n + 1)) a m))

    -- Every object of a message is a field of it, under its number counted from 1, if the texts of
    -- different numbers differ.
    message_fields-object :
        (file b : A) (before after : List A)
        → get (itoa (length before + 1)) (message_fields file (before ++ b ∷ after)) ≡ some b
    unfolding message_fields
    message_fields-object file b before after =
        let place : length before + 1 ≡ 0 + length before + 1 = omega arith in
        rw (place) (numbered-append 0 before after b (put "real_file" file []))

  -- The place of the call is a field of every message, if no number is written like its key.
  message_fields-file :
      (file : A) (objs : List A)
      → ((j : ℕ) → 0 < j → (itoa j == "real_file") ≡ false)
      → get "real_file" (message_fields file objs) ≡ some file
  unfolding message_fields
  message_fields-file file objs other =
      get-numbered 0 objs (put "real_file" file []) "real_file" other
      ∙ get-put {K = String} "real_file" "real_file" file []
