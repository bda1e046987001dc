-- ===== src/Flag.antt =====
-- The flag that reads a map of lists: pkg/util/flags/string_to_string_slice.go. The map is behind a
-- pointer, none for a nil one, and a nil map reads as the empty one; the reader and the writer of
-- encoding/csv are parameters.
pub mod Reading
use kube_oidc_proxy.Base.{
  Text, codes, Option, none, some, List, [], ◌∷◌, ◌++◌, lookup, insert, values_of, split_on,
  trim_space,
}
use kube_oidc_proxy.Base.Result.{Result, ok, err}

abbrev pub Values : Type 0
Values = List (Text × List Text)

pub data SetError (E : Type 0) : Type 0 where
  unreadable : E → SetError E
  malformed : Text → SetError E

-- The map that Set starts from, which it makes where there is none.
abbrev pub made : Option Values → Values
made none = []
made (some m) = m

-- `(*s.values)[k] = append((*s.values)[k], v)`
unfoldable pub append_value : Text → Text → Values → Values
append_value k v m = insert k (values_of (lookup k m) ++ v ∷ []) m

-- One pair, split at its `=`; none where it is not of two parts.
unfoldable pub add_pair : List Text → Values → Option Values
add_pair [] m = none
add_pair (k ∷ []) m = none
add_pair (k ∷ v ∷ []) m = some (append_value k v m)
add_pair (k ∷ v ∷ w ∷ rest) m = none

module _ {E : Type 0} where
  unfoldable pub add_pairs : List Text → Values → Option (SetError E) × Values
  add_pairs [] m = (none, m)
  add_pairs (pair ∷ pairs) m = elim (add_pair (split_on b'=' pair) m) [
    | none ↦ (some (malformed pair), [])
    | some n ↦ add_pairs pairs n
  ]

  unfoldable pub set_fields : Result E (List Text) → Values → Option (SetError E) × Values
  set_fields (ok pairs) m = add_pairs pairs m
  set_fields (err e) m = (some (unreadable e), [])

  -- Set
  unfoldable pub set :
      (Text → Result E (List Text)) → Text → Option Values → Option (SetError E) × Values
  set read [] p = (none, made p)
  set read (c ∷ text) p = set_fields (read (c ∷ text)) (made p)

unfoldable pub entry_records : Text → List Text → List Text
entry_records k [] = []
entry_records k (v ∷ vs) = (k ++ b'=' ∷ v) ∷ entry_records k vs

-- The records that String writes, in the order of `range`.
unfoldable pub records : Values → List Text
records [] = []
records ((k, vs) ∷ m) = entry_records k vs ++ records m

-- String, with the writer of encoding/csv, whose comma it accepts.
unfoldable pub to_string : (List Text → Text) → Values → Text
to_string write m = codes "[" ++ (trim_space (write (records m)) ++ codes "]")
