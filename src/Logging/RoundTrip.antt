-- ===== src/Logging/RoundTrip.antt =====
-- An entry of the log can be read back from the node that is written (pkg/log/xml_formatter.go).
use relaybaton.Common.{
  String, ◌≡◌, refl, ap, false, Option, none, some, List, [], ◌∷◌, map, if◌then◌else◌, ◌==◌,
  same_nat, same_string, same_bytes,
}
use relaybaton.Logging.{Entry, Texts, Leaf, leaf_of, format, message_leaf}

abbrev pair_of : Leaf → String × String
pair_of l = (l.name, l.text)

-- The message and the fields, of a node whose entry has a message.
abbrev read_children : List Leaf → Option (String × List (String × String))
read_children [] = none
read_children (m ∷ ls) = if m.name == "msg" then some (m.text, map pair_of ls) else none

pairs_back : (fields : List (String × String)) → map pair_of (map leaf_of fields) ≡ fields
pairs_back [] = refl
pairs_back ((k, v) ∷ fields) = ap (λ x. (k, v) ∷ x) (pairs_back fields)

module _ (texts : Texts) where
  -- The node of an entry that has a message gives back the message and the fields, in their order.
  read_children-format :
      (e : Entry)
      → (e.message == "") ≡ false
      → read_children (format texts e).children ≡ some (e.message, e.data_fields)
  unfolding format message_leaf
  read_children-format e h = rw (h, pairs_back e.data_fields) refl
