-- ===== src/Central/Checks/RecordsetNames/Suffix.antt =====
-- A name lies in a zone when the zone's labels are the last of its own.
use designate_private.Prelude.{
  ◌≡◌, sym, ap, ◌∙◌, ◌⊎◌, inl, inr, ◌↔◌, false, List, [], ◌∷◌, ◌++◌, arith, Bool-cases,
}
use designate_private.Prelude.Texts.{
  Text, text_eq, text_eq_iff, split, join, dot, split-ne-nil, join-split, split-append, join-append,
  ends_with_iff,
}
use designate_private.Central.Checks.RecordsetNames.{is_outside}

abbrev pub IsSuffix : List Text → List Text → Type 0
IsSuffix ls ms = (pre : List Text) × (ms ≡ pre ++ ls)

Encloses-IsSuffix :
    (zone name : Text)
    → ((name ≡ zone) ⊎ ((p : Text) × (name ≡ p ++ dot ∷ zone))) ↔ IsSuffix (split zone) (split name)
Encloses-IsSuffix zone name = (there, back)
  where
    there :
        (name ≡ zone) ⊎ ((p : Text) × (name ≡ p ++ dot ∷ zone)) → IsSuffix (split zone) (split name)
    there (inl same) = ([], ap (λ t. split t) same)
    there (inr (p, below)) = (split p, ap (λ t. split t) below ∙ split-append p zone)

    back :
        IsSuffix (split zone) (split name) → (name ≡ zone) ⊎ ((p : Text) × (name ≡ p ++ dot ∷ zone))
    back ([], e) = inl (sym (join-split name) ∙ ap (λ ls. join ls) e ∙ join-split zone)
    back (l ∷ pre, e) = inr (
      join (l ∷ pre),
      sym (join-split name)
          ∙ ap (λ ls. join ls) e
          ∙ join-append (l ∷ pre) (split zone) (λ f. cc) (split-ne-nil zone)
          ∙ ap (λ t. join (l ∷ pre) ++ dot ∷ t) (join-split zone),
    )

-- The test of _is_valid_recordset_name on texts finds a name inside the zone exactly when the labels
-- of the zone's name are the last labels of the name.
pub is_outside-IsSuffix :
    (zone name : Text) → is_outside zone name ≡ false ↔ IsSuffix (split zone) (split name)
unfolding is_outside
is_outside-IsSuffix zone name =
    let labels = Encloses-IsSuffix zone name in
    let same = text_eq_iff name zone in
    let below = ends_with_iff name (dot ∷ zone) in
    (
      λ e. labels.0 (elim (Bool-cases (text_eq name zone)) [
        | inl yes_same ↦ inl (same.0 yes_same)
        | inr other ↦ inr (below.0 (ground arith))
      ]),
      λ s. elim (labels.1 s) [
        | inl e ↦ let t = same.1 e in ground arith
        | inr p ↦ let t = below.1 p in ground arith
      ],
    )
