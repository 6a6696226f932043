-- ===== src/Model/FilePath/Safe.antt =====
-- An accepted path names an entry below the folder's root, and acceptance goes by component.
use mathlib.Core.List.{reverse, reverse-cons, append-nil, append_assoc}
use happy_active_everywhere.Base.{
  ◌+◌, ◌≤◌, true, false, ◌&&◌, not, Option, none, some, List, [], ◌∷◌, ◌++◌, leb, ◌≡◌, ◌↔◌, refl,
  ◌∙◌, arith, ◌||◌, ok, ensure-eq-ok, >>=-eq-ok,
}
use happy_active_everywhere.Base.Order.{◌≟◌, list_ord}
use happy_active_everywhere.Base.Text.{Text, text, len, len-append, is_empty, split, split-append}
use happy_active_everywhere.Model.FilePath.{check_name, check_names, validate_path}

-- How a file system walks a relative path, from the names below the folder's root, the innermost
-- first: it stays at `.` and at an empty component, `..` goes up, and from the root up leaves the
-- folder.
unfoldable pub walk : List Text → List Text → Option (List Text)
walk at [] = some at
walk at (name ∷ names) = elim (is_empty name || (name ≟ text ".")) [
  | true ↦ walk at names
  | false ↦ elim (name ≟ text "..") [
    | true ↦ elim at [ [] ↦ none | _ ∷ outer ↦ walk outer names ]
    | false ↦ walk (name ∷ at) names
  ]
]

abbrev pub IsPlain : Text → Type 0
IsPlain name = (is_empty name ≡ false) × ((name ≟ text ".") ≡ false) × ((name ≟ text "..") ≡ false)

check_name-IsPlain : (name : Text) → check_name name ≡ ok tt → IsPlain name
unfolding check_name
check_name-IsPlain name h =
    let (e, _) =
      ensure-eq-ok
        (not (is_empty name)
          && not (name ≟ text ".")
          && not (name ≟ text "..")
          && leb (len name) 240)
        _ _ h in
    ground arith

walk_step :
    (at names : List Text) (name : Text)
    → IsPlain name
    → walk at (name ∷ names) ≡ walk (name ∷ at) names
unfolding walk
walk_step at names name p = ground arith

walk_plain :
    (at names : List Text) → check_names names ≡ ok tt → walk at names ≡ some (reverse names ++ at)
unfolding walk check_names
walk_plain at [] h = refl
walk_plain at (name ∷ names) h =
    let (u, e, h') = >>=-eq-ok (check_name name) (λ _. check_names names) h in
    walk_step at names name (check_name-IsPlain name e)
    ∙ walk_plain (name ∷ at) names h'
    ∙ rw (reverse-cons name names, append_assoc)

checks_of :
    (path : Text)
    → (validate_path path ≡ ok tt)
      ↔ ((is_empty path ≡ false) × (len path ≤ 4096) × (check_names (split b'/' path) ≡ ok tt))
unfolding validate_path
checks_of path = (λ h. ground arith, λ (e, l, c). ground arith)

-- An accepted path leads to the entry that its components name, one below the other from the root
-- of the folder: walking it never leaves the folder and goes through each component once.
pub walk-validate_path :
    (path : Text)
    → validate_path path ≡ ok tt
    → walk [] (split b'/' path) ≡ some (reverse (split b'/' path))
walk-validate_path path h =
    walk_plain [] (split b'/' path) ((checks_of path).0 h).2
    ∙ rw (append-nil (reverse (split b'/' path)))

check_names-append :
    (xs ys : List Text)
    → (check_names (xs ++ ys) ≡ ok tt) ↔ ((check_names xs ≡ ok tt) × (check_names ys ≡ ok tt))
unfolding check_names
check_names-append [] ys = (λ h. (refl, h), λ h. h.1)
check_names-append (x ∷ xs) ys =
    let (f, g) = check_names-append xs ys in
    (
      λ h.
          let (u, e, k) = >>=-eq-ok (check_name x) (λ _. check_names (xs ++ ys)) h in
          (rw e (f k).0, (f k).1),
      λ (h, k). let (u, e, m) = >>=-eq-ok (check_name x) (λ _. check_names xs) h in rw e (g (m, k)),
    )

nonempty : (s : Text) → check_names (split b'/' s) ≡ ok tt → is_empty s ≡ false
unfolding check_names check_name split
nonempty [] h = cc
nonempty (c ∷ s) h = refl

len-join : (s t : Text) → len (s ++ b'/' ∷ t) ≡ len s + len t + 1
unfolding len
len-join s t = omega (arith, len-append s (b'/' ∷ t))

is_empty-join : (s t : Text) → is_empty (s ++ b'/' ∷ t) ≡ false
is_empty-join [] t = refl
is_empty-join (c ∷ s) t = refl

-- A path in a directory is accepted exactly when the directory's path and the rest are, and it has
-- 4096 bytes at most.
pub validate_path-append :
    (s t : Text)
    → (validate_path (s ++ b'/' ∷ t) ≡ ok tt)
      ↔ ((validate_path s ≡ ok tt) × (validate_path t ≡ ok tt) × (len s + len t + 1 ≤ 4096))
validate_path-append s t =
    let whole = checks_of (s ++ b'/' ∷ t) in
    let parts = check_names-append (split b'/' s) (split b'/' t) in
    (
      λ h.
          let (e, l, c) = whole.0 h in
          let (p, q) = parts.0 (rw split-append at c) in
          (
            (checks_of s).1 (nonempty s p, omega (arith, len-join s t), p),
            (checks_of t).1 (nonempty t q, omega (arith, len-join s t), q),
            omega (arith, len-join s t),
          ),
      λ (h, k, l). whole.1 (
        is_empty-join s t,
        omega (arith, len-join s t),
        rw split-append (parts.1 (((checks_of s).0 h).2, ((checks_of t).0 k).2)),
      ),
    )
