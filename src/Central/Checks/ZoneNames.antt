-- ===== src/Central/Checks/ZoneNames.antt =====
-- Zone names in central/service.py: _is_valid_zone_name, _is_blacklisted_zone_name, _is_subzone and
-- _is_superzone. A row that stands in no list is not in the database. `re.search` with its timer is a
-- parameter: found, not found, or too slow.
pub mod Below
pub mod Closest
mod Tests
use designate_private.Prelude.{
  ℕ, Bool, true, false, not, ◌&&◌, ◌||◌, Option, none, some, List, [], ◌∷◌, ◌++◌, ◌==◌, ltb, leb,
  if◌then◌else◌, length, count,
}
use designate_private.Prelude.Texts.{Text, text_eq, split, join, strip, rstrip, lower, dot}
use designate_private.Central.Checks.{
  Refusal, zone_name_too_long, one_label, invalid_tld, same_as_tld, blacklisted, Checked, passed,
  refused, ◌>>=◌, ◌>>◌, refuse_if, ZoneRow,
}

pub data Search : Type 0 where
  found not_found too_slow : Search

-- The last label; a split has one at least.
last_label : List Text → Text
last_label [] = []
last_label (l ∷ ls) = let rest = last_label ls in elim ls [ [] ↦ l | _ ↦ rest ]

is_tld : List Text → Text → Bool
is_tld [] name = false
is_tld (t ∷ ts) name = text_eq t name || is_tld ts name

module _ {Pattern : Type 0} (search : Pattern → Text → Search) where
  pub is_blacklisted_zone_name : List Pattern → Text → Bool
  is_blacklisted_zone_name [] name = false
  is_blacklisted_zone_name (p ∷ ps) name =
      let rest = is_blacklisted_zone_name ps name in
      elim (search p name) [ found ↦ true | too_slow ↦ true | not_found ↦ rest ]

  -- `tlds` are all the TLDs, `may_bypass` is whether the policy allows a blacklisted name.
  unfoldable pub is_valid_zone_name :
      ℕ → List Text → List Pattern → Bool → Text → Checked (Unit {0})
  unfolding last_label is_tld is_blacklisted_zone_name
  is_valid_zone_name max_len tlds blacklists may_bypass name = do
    refuse_if (ltb max_len (length name)) zone_name_too_long
    let labels = split (strip name)
    refuse_if (leb (length labels) 1) one_label
    let has_tlds : Bool = elim tlds [ [] ↦ false | _ ↦ true ]
    refuse_if (has_tlds && not (is_tld tlds (last_label labels))) invalid_tld
    refuse_if (has_tlds && is_tld tlds (lower (rstrip name))) same_as_tld
    refuse_if (is_blacklisted_zone_name blacklists name && not may_bypass) blacklisted

-- The criterion {"pool_id": pool_id, "name": name}.
abbrev pub is_named : Text → ℕ → ZoneRow → Bool
is_named name pool_id z = text_eq z.name name && (z.pool_id == pool_id)

-- find_zone: `none` is ZoneNotFound, for no row and for several.
pub find_one : (ZoneRow → Bool) → List ZoneRow → Option ZoneRow
find_one p [] = none
find_one p (z ∷ zs) =
    let rest = find_one p zs in if p z then (if count p zs == 0 then some z else none) else rest

-- The loop of _is_subzone over `labels[i:]`.
search_labels : List ZoneRow → ℕ → List Text → Option ZoneRow
unfolding find_one
search_labels zones pool_id [] = none
search_labels zones pool_id (l ∷ ls) =
    let rest = search_labels zones pool_id ls in
    elim (find_one (is_named (join (l ∷ ls)) pool_id) zones) [ some z ↦ some z | none ↦ rest ]

abbrev tail : List Text → List Text
tail [] = []
tail (l ∷ ls) = ls

-- `none` is False.
unfoldable pub is_subzone : List ZoneRow → Text → ℕ → Option ZoneRow
unfolding search_labels
is_subzone zones name pool_id = search_labels zones pool_id (tail (split name))

-- SQL's `s LIKE t` for a `t` without `%`, on texts of one case: an underscore stands for any character.
is_like : Text → Text → Bool
is_like [] [] = true
is_like [] (d ∷ t) = false
is_like (c ∷ s) [] = false
is_like (c ∷ s) (d ∷ t) = let rest = is_like s t in ((d == b'_') || (c == d)) && rest

-- `s LIKE '%' || t`
ends_like : Text → Text → Bool
unfolding is_like
ends_like [] t = is_like [] t
ends_like (c ∷ s) t = is_like (c ∷ s) t || ends_like s t

-- The zones of the pool whose name is LIKE '%.name'.
unfoldable pub is_superzone : List ZoneRow → Text → ℕ → List ZoneRow
unfolding ends_like
is_superzone [] name pool_id = []
is_superzone (z ∷ zs) name pool_id =
    let rest = is_superzone zs name pool_id in
    if ends_like z.name (dot ∷ name) && (z.pool_id == pool_id) then z ∷ rest else rest
