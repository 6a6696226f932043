-- ===== src/Share/Saving.antt =====
-- `Share::save`: what it writes, and the invariant of the index that it keeps.
use happy_active_everywhere.Base.{
  ℕ, ◌+◌, ◌-◌, ◌^◌, ◌≤◌, ◌<◌, true, false, not, ◌&&◌, Option, none, some, [], ◌∷◌, ◌++◌,
  if◌then◌else◌, ok, >>=-eq-ok, >>-eq-ok, ensure-eq-ok, ok-injective, ◌≡◌, refl, sym, ap, subst,
  ◌∙◌, ◌⊎◌, inl, inr, arith, Bool-cases, neither, not-true, Option-cases,
}
use happy_active_everywhere.Base.In.{All}
use happy_active_everywhere.Base.Order.{◌≟◌, ≟-eq, ≟-refl, list_ord}
use happy_active_everywhere.Base.Text.{Text}
use happy_active_everywhere.Base.BTreeMap.{
  BTreeMap, get, insert, IsSorted, get-insert, insert-IsSorted,
}
use happy_active_everywhere.Base.Unique.{
  IsUnique, Apart, OthersApart, insert-IsUnique, get-OthersApart, Apart-OthersApart, All-insert,
  All-get,
}
use happy_active_everywhere.Model.{Content, Versions, Codec}
use happy_active_everywhere.Model.Equality.{same_versions, same_versions-eq}
use happy_active_everywhere.Model.FilePath.{validate_path}
use happy_active_everywhere.Share.{
  Entry, Index, next_sequence, heads_of, number, alias_taken, alias_of, remember_all, save,
}

abbrev pub seq_of : Entry → ℕ
seq_of e = e.seq

abbrev pub aliases_of : Entry → Text
aliases_of e = e.alias

abbrev pub AtMost : ℕ → BTreeMap Text Entry → Type 0
AtMost n entries = All (λ (e : Text × Entry). e.1.seq ≤ n) entries

-- The rows are in the order of their paths, no two have one number or one alias, and no number is
-- larger than the counter.
pub record IsValid (index : Index) : Type 0 where
  pub sorted : IsSorted index.entries
  pub at_most : AtMost index.sequence index.entries
  pub seqs : IsUnique seq_of index.entries
  pub aliases : IsUnique aliases_of index.entries

number-cases :
    (sequence : ℕ) (prior : Option Entry) (versions : Versions) {out : ℕ × ℕ}
    → number sequence prior versions ≡ ok out
    → ((out ≡ (sequence + 1, sequence + 1)) × (sequence < 2 ^ 63 - 1))
      ⊎ ((e : Entry) × (prior ≡ some e) × (e.versions ≡ versions) × (out ≡ (e.seq, sequence)))
unfolding number next_sequence
number-cases sequence none versions h = inl (ground arith)
number-cases sequence (some e) versions h = elim (Bool-cases (same_versions e.versions versions)) [
  | inl s ↦ inr (e, refl, same_versions-eq e.versions versions s, ground arith)
  | inr s ↦ inl (ground arith)
]

module _ (codec : Codec) (collision_key : Text → Text) where
  -- The row that `save` writes.
  abbrev pub row : Option Entry → Text → Versions → Option Content → Versions → ℕ → Entry
  row prior path versions materialized observed seq = record {
    alias = alias_of (collision_key path) prior;
    versions = versions;
    materialized = materialized;
    observed = observed;
    seq = seq;
  }

  pub save-checks :
      (index : Index) (path : Text) (versions : Versions) (materialized : Option Content)
      (observed : Versions) {index' : Index}
      → save codec collision_key index path versions materialized observed ≡ ok index'
      → (validate_path path ≡ ok tt)
        × (n : ℕ × ℕ) × (number index.sequence (get path index.entries) versions ≡ ok n)
        × (alias_taken path (collision_key path) index.entries ≡ false)
        × (index' ≡ record index {
          sequence = n.1;
          history =
              remember_all codec path
                (heads_of (get path index.entries) ++ versions.heads)
                index.history;
          entries =
              insert path
                (row (get path index.entries) path versions materialized observed n.0)
                index.entries;
        })
  unfolding save
  save-checks index path versions materialized observed {index'} h =
      let (v, h1) = >>-eq-ok (validate_path path) _ h in
      let (n, e, h2) = >>=-eq-ok (number index.sequence (get path index.entries) versions) _ h1 in
      let (a, h3) =
        ensure-eq-ok (not (alias_taken path (collision_key path) index.entries)) _ _ h2 in
      (
        v,
        n,
        e,
        not-true (alias_taken path (collision_key path) index.entries) a,
        sym (ok-injective h3),
      )

AtMost-le : (n k : ℕ) (m : BTreeMap Text Entry) → n ≤ k → AtMost n m → AtMost k m
AtMost-le n k [] h a = tt
AtMost-le n k (e ∷ m) h a = (omega arith, AtMost-le n k m h a.1)

AtMost-Apart : (n : ℕ) (m : BTreeMap Text Entry) → AtMost n m → Apart seq_of (n + 1) m
AtMost-Apart n [] a = tt
AtMost-Apart n (e ∷ m) a = ((λ q. absurd (omega (arith, q))), AtMost-Apart n m a.1)

-- What `save` needs of the number and of the alias.
number-IsValid :
    (sequence : ℕ) (path : Text) (versions : Versions) (m : BTreeMap Text Entry) {out : ℕ × ℕ}
    → AtMost sequence m
    → IsUnique seq_of m
    → number sequence (get path m) versions ≡ ok out
    → (sequence ≤ out.1) × (out.0 ≤ out.1) × OthersApart seq_of out.0 path m
number-IsValid sequence path versions m {out} a u h =
    elim (number-cases sequence (get path m) versions h) [
      | inl (e, _) ↦
          subst (λ (x : ℕ × ℕ). (sequence ≤ x.1) × (x.0 ≤ x.1) × OthersApart seq_of x.0 path m)
            (sym e)
            (
              omega arith,
              omega arith,
              Apart-OthersApart seq_of (sequence + 1) path m (AtMost-Apart sequence m a),
            )
      | inr (prior, found, _, e) ↦
          subst (λ (x : ℕ × ℕ). (sequence ≤ x.1) × (x.0 ≤ x.1) × OthersApart seq_of x.0 path m)
            (sym e)
            (
              omega arith,
              All-get (λ (x : Text × Entry). x.1.seq ≤ sequence) path prior m a found,
              get-OthersApart seq_of path prior m u found,
            )
    ]

alias_taken-OthersApart :
    (path alias : Text) (m : BTreeMap Text Entry)
    → alias_taken path alias m ≡ false
    → OthersApart aliases_of alias path m
unfolding alias_taken
alias_taken-OthersApart path alias [] h = tt
alias_taken-OthersApart path alias (e ∷ m) h =
    let (here, rest) = neither (not (e.0 ≟ path) && (e.1.alias ≟ alias)) _ h in
    (
      elim (Bool-cases (e.0 ≟ path)) [
        | inl q ↦ inl (≟-eq e.0 path q)
        | inr q ↦ inr (λ same.
            let t : (e.1.alias ≟ alias) ≡ true = rw same (≟-refl alias) in absurd (ground arith))
      ],
      alias_taken-OthersApart path alias m rest,
    )

alias_of-OthersApart :
    (path fresh : Text) (m : BTreeMap Text Entry)
    → IsUnique aliases_of m
    → alias_taken path fresh m ≡ false
    → OthersApart aliases_of (alias_of fresh (get path m)) path m
alias_of-OthersApart path fresh m u h = elim (Option-cases (get path m)) [
  | inl e ↦ rw e (alias_taken-OthersApart path fresh m h)
  | inr (prior, e) ↦ rw e (get-OthersApart aliases_of path prior m u e)
]

module _ (codec : Codec) (collision_key : Text → Text) where
  -- `save` keeps the invariant of the index.
  pub save-IsValid :
      (index : Index) (path : Text) (versions : Versions) (materialized : Option Content)
      (observed : Versions) {index' : Index}
      → IsValid index
      → save codec collision_key index path versions materialized observed ≡ ok index'
      → IsValid index'
  save-IsValid index path versions materialized observed {index'} valid h =
      let (_, n, e, a, q) =
        save-checks codec collision_key index path versions materialized observed h in
      let m = index.entries in
      let prior = get path m in
      let new = row codec collision_key prior path versions materialized observed n.0 in
      let (more, below, apart) =
        number-IsValid index.sequence path versions m valid.at_most valid.seqs e in
      subst IsValid (sym q) (record {
        sorted = insert-IsSorted path new m valid.sorted;
        at_most =
            All-insert (λ (x : Text × Entry). x.1.seq ≤ n.1) path new m below
              (AtMost-le index.sequence n.1 m more valid.at_most);
        seqs = insert-IsUnique seq_of path new m valid.sorted apart valid.seqs;
        aliases =
            insert-IsUnique aliases_of path new m valid.sorted
              (alias_of-OthersApart path (collision_key path) m valid.aliases a) valid.aliases;
      })

  -- What a lookup finds after `save`: the row of the path has what was saved, other rows are as before.
  -- The number of the row and the counter stay as they are if the versions are those that were there,
  -- and are both one more than the counter was if not. Nothing but rows, history and counter changes.
  pub save-get :
      (index : Index) (path p : Text) (versions : Versions) (materialized : Option Content)
      (observed : Versions) {index' : Index}
      → save codec collision_key index path versions materialized observed ≡ ok index'
      → (entry : Entry) × (get p index'.entries
          ≡ (if p ≟ path then some entry else get p index.entries))
        × (entry.versions ≡ versions)
        × (entry.materialized ≡ materialized)
        × (entry.observed ≡ observed)
        × (((entry.seq ≡ index.sequence + 1) × (index'.sequence ≡ index.sequence + 1))
            ⊎ ((prior : Entry) × (get path index.entries ≡ some prior)
                × (prior.versions ≡ versions)
                × (entry.seq ≡ prior.seq)
                × (index'.sequence ≡ index.sequence)))
        × (index'.pending ≡ index.pending)
        × (index'.incoming ≡ index.incoming)
        × (index'.needed ≡ index.needed)
        × (index'.cursors ≡ index.cursors)
  save-get index path p versions materialized observed {index'} h =
      let (_, n, e, a, q) =
        save-checks codec collision_key index path versions materialized observed h in
      let new =
        row codec collision_key (get path index.entries) path versions materialized observed n.0 in
      (
        new,
        ap (λ (x : Index). get p x.entries) q ∙ get-insert path p new index.entries,
        refl,
        refl,
        refl,
        elim (number-cases index.sequence (get path index.entries) versions e) [
          | inl (s, _) ↦ inl (
            ap (λ (x : ℕ × ℕ). x.0) s,
            ap (λ (x : Index). x.sequence) q ∙ ap (λ (x : ℕ × ℕ). x.1) s,
          )
          | inr (prior, found, same, s) ↦ inr (
            prior,
            found,
            same,
            ap (λ (x : ℕ × ℕ). x.0) s,
            ap (λ (x : Index). x.sequence) q ∙ ap (λ (x : ℕ × ℕ). x.1) s,
          )
        ],
        ap (λ (x : Index). x.pending) q,
        ap (λ (x : Index). x.incoming) q,
        ap (λ (x : Index). x.needed) q,
        ap (λ (x : Index). x.cursors) q,
      )
