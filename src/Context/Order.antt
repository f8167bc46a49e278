-- ===== src/Context/Order.antt =====
-- app/services/context.py: the order in which sources are taken, by falling priority and then by
-- `source_id` and `version`, and the test that these two identify a source.
use steh_v1_0_0_rc.Base.{
  Bool, true, false, not, ◌&&◌, ◌||◌, List, [], ◌∷◌, ◌==◌, nat_eq, ltb, if◌then◌else◌, any,
}
use steh_v1_0_0_rc.Models.Context.{Text, ContextSourceInput}
use steh_v1_0_0_rc.Context.Sanitize.{codes, text_eq}

-- `s <= t` on texts, by code points
unfoldable pub text_le : Text → Text → Bool
text_le [] t = true
text_le (a ∷ s) [] = false
text_le (a ∷ s) (b ∷ t) = ltb a b || (nat_eq a b && text_le s t)

-- the key (-priority, source_id, version), compared by `<=`
unfoldable pub key_le : ContextSourceInput → ContextSourceInput → Bool
unfolding text_le text_eq
key_le a b =
    ltb b.priority a.priority
    || (nat_eq a.priority b.priority
        && (if a.source_id == b.source_id
            then text_le (codes a.version) (codes b.version)
            else text_le (codes a.source_id) (codes b.source_id)))

unfoldable pub insert_source :
    ContextSourceInput → List ContextSourceInput → List ContextSourceInput
unfolding key_le
insert_source x [] = x ∷ []
insert_source x (y ∷ ys) =
    let later = y ∷ insert_source x ys in if key_le x y then x ∷ y ∷ ys else later

-- `sorted(inputs, key=...)`, which keeps the order of equal keys
unfoldable pub sorted : List ContextSourceInput → List ContextSourceInput
unfolding insert_source
sorted [] = []
sorted (x ∷ xs) = insert_source x (sorted xs)

unfoldable pub same_identity : ContextSourceInput → ContextSourceInput → Bool
same_identity a b = a.source_id == b.source_id && a.version == b.version

-- `len(identities) == len(set(identities))`
unfoldable pub unique_identities : List ContextSourceInput → Bool
unfolding same_identity
unique_identities [] = true
unique_identities (x ∷ xs) = not (any (same_identity x) xs) && unique_identities xs
