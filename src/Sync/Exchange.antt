-- ===== src/Sync/Exchange.antt =====
-- `send_metadata` against `read_metadata`: what one device sends, the other stages.
use happy_active_everywhere.Base.{
  ℕ, zero, suc, ◌^◌, ◌≤◌, ◌<◌, Bool, true, false, not, List, [], ◌∷◌, ◌++◌, map, ◌==◌, length, take,
  Result, ok, ◌>>=◌, >>=-cong, ◌≡◌, refl, sym, ap, ◌∙◌, subst, arith, inl, inr, List-cases,
  Result-cases, length-append, lt→ltb, le→leb,
}
use happy_active_everywhere.Base.In.{All}
use happy_active_everywhere.Base.Order.{nat_ord, list_ord, ≺→lt}
use happy_active_everywhere.Base.Text.{Text}
use happy_active_everywhere.Base.BTreeMap.{BTreeMap, IsSorted, Above}
use happy_active_everywhere.Base.Paging.{
  rows_after, pages, last_key, page-rows_after, rows_after-IsSorted, take-empty,
  Above-rows_after_self,
}
use happy_active_everywhere.Model.{Codec}
use happy_active_everywhere.Share.{
  Record, Index, by_seq, up_to, row_record, records, stage, stage_all, stage_record,
}
use happy_active_everywhere.Share.Saving.{IsValid, AtMost}
use happy_active_everywhere.Sync.{
  Hello, Metadata, page, end, last_seq, in_order, start_after, send_pages, send_metadata,
  read_metadata, is_send_only, is_receive_only,
}
use happy_active_everywhere.Sync.Rows.{
  AreNumbered, by_seq-le, by_seq-AreNumbered, by_seq-IsSorted, length-by_seq, length-up_to,
  up_to-IsSorted, All-up_to, up_to-le, All-rows_after, length-rows_after,
}

-- The messages of some pages.
abbrev pub messages : List (BTreeMap ℕ Record) → List Metadata
messages [] = end ∷ []
messages (rows ∷ rest) = page (map row_record rows) ∷ messages rest

last_seq-last_key :
    (e : ℕ × Record) (rows : BTreeMap ℕ Record)
    → AreNumbered (e ∷ rows)
    → last_seq (row_record e) (map row_record rows) ≡ last_key e rows
last_seq-last_key e [] a = a.0
last_seq-last_key e (f ∷ rows) a = last_seq-last_key f rows a.1

-- The rows of a page are rows.
All-page : (P : ℕ × Record → Type 0) (xs ys : BTreeMap ℕ Record) → All P (xs ++ ys) → All P xs
All-page P [] ys a = tt
All-page P (x ∷ xs) ys a = (a.0, All-page P xs ys a.1)

All-page_rest : (P : ℕ × Record → Type 0) (xs ys : BTreeMap ℕ Record) → All P (xs ++ ys) → All P ys
All-page_rest P [] ys a = a
All-page_rest P (x ∷ xs) ys a = All-page_rest P xs ys a.1

records-eq :
    (index : Index) (since ceiling : ℕ)
    → since < 2 ^ 63
    → ceiling < 2 ^ 63
    → records index since ceiling 32
      ≡ ok (map row_record (take 32 (rows_after since (up_to ceiling (by_seq index.entries)))))
unfolding records
records-eq index since ceiling h k =
    rw (records, lt→ltb since (2 ^ 63) h, lt→ltb ceiling (2 ^ 63) k)

last_key-le :
    (c : ℕ) (e : ℕ × Record) (rows : BTreeMap ℕ Record)
    → All (λ (x : ℕ × Record). x.0 ≤ c) (e ∷ rows)
    → last_key e rows ≤ c
last_key-le c e [] a = a.0
last_key-le c e (f ∷ rows) a = last_key-le c f rows a.1

rows-IsSorted : (index : Index) (c : ℕ) → IsValid index → IsSorted (up_to c (by_seq index.entries))
rows-IsSorted index c v =
    up_to-IsSorted c (by_seq index.entries) (by_seq-IsSorted index.entries v.seqs)

module _ (check : ℕ → Result (Unit {0})) where
  send_pages-messages :
      (fuel : ℕ) (index : Index) (since ceiling : ℕ)
      → ((n : ℕ) → check n ≡ ok tt)
      → IsValid index
      → ceiling < 2 ^ 63
      → since ≤ ceiling
      → length (rows_after since (up_to ceiling (by_seq index.entries))) < fuel
      → send_pages check fuel index since ceiling
        ≡ ok (messages (pages fuel 32 since (up_to ceiling (by_seq index.entries))))
  unfolding send_pages pages
  send_pages-messages zero index since ceiling c v small le enough = absurd (omega arith)
  send_pages-messages (suc fuel) index since ceiling c v small le enough =
      let rows = up_to ceiling (by_seq index.entries) in
      elim (List-cases (take 32 (rows_after since rows))) [
        | inl e ↦ rw (pages, c since, records-eq index since ceiling (omega arith) small, e)
        | inr (r, rest, e) ↦
            let split = page-rows_after 32 since rows r rest (rows-IsSorted index ceiling v) e in
            let numbered : AreNumbered (r ∷ rest) =
              All-page (λ (x : ℕ × Record). x.1.seq ≡ x.0) (r ∷ rest)
                (rows_after (last_key r rest) rows)
                (subst AreNumbered split (
                  All-rows_after since (λ (x : ℕ × Record). x.1.seq ≡ x.0) rows
                    (All-up_to (λ (x : ℕ × Record). x.1.seq ≡ x.0) ceiling (by_seq index.entries)
                      (by_seq-AreNumbered index.entries)))) in
            let within : All (λ (x : ℕ × Record). x.0 ≤ ceiling) (r ∷ rest) =
              All-page (λ (x : ℕ × Record). x.0 ≤ ceiling) (r ∷ rest)
                (rows_after (last_key r rest) rows)
                (subst (All (λ (x : ℕ × Record). x.0 ≤ ceiling)) split (
                  All-rows_after since (λ (x : ℕ × Record). x.0 ≤ ceiling) rows
                    (up_to-le ceiling (by_seq index.entries)))) in
            let tail =
              send_pages-messages fuel index (last_key r rest) ceiling c v small
                (last_key-le ceiling r rest within)
                (omega (
                  arith,
                  ap length split,
                  length-append rest (rows_after (last_key r rest) rows),
                )) in
            rw (
              pages,
              c since,
              records-eq index since ceiling (omega arith) small,
              e,
              last_seq-last_key r rest numbered,
              tail,
            )
      ]

  -- The checks of a page that the sender makes.
  in_order-last_key :
      (last limit : ℕ) (e : ℕ × Record) (rows rest : BTreeMap ℕ Record)
      → AreNumbered (e ∷ rows)
      → All (λ (x : ℕ × Record). x.0 ≤ limit) (e ∷ rows)
      → IsSorted ((e ∷ rows) ++ rest)
      → last < e.0
      → in_order last limit (map row_record (e ∷ rows)) ≡ ok (last_key e rows)
  unfolding in_order
  in_order-last_key last limit e [] rest a w s h = rw (a.0, lt→ltb last e.0 h, le→leb e.0 limit w.0)
  in_order-last_key last limit e (f ∷ rows) rest a w s h =
      rw (a.0, lt→ltb last e.0 h, le→leb e.0 limit w.0)
        (in_order-last_key e.0 limit f rows rest a.1 w.1 s.1 (≺→lt e.0 f.0 s.0.0))

stage_all-append :
    (codec : Codec) (has_object : Text → Bool) (index : Index) (xs ys : List Record)
    → stage_all codec has_object index (xs ++ ys) ≡ (
        stage_all codec has_object index xs >>= λ (next : Index).
        stage_all codec has_object next ys)
unfolding stage_all
stage_all-append codec has_object index [] ys = refl
stage_all-append codec has_object index (x ∷ xs) ys =
    elim (Result-cases (stage_record codec has_object index x)) [
      | inl (next, e) ↦ rw e (stage_all-append codec has_object next xs ys)
      | inr (message, e) ↦ rw e
    ]

length-take-map : (n : ℕ) (rows : BTreeMap ℕ Record) → length (map row_record (take n rows)) ≤ n
length-take-map zero rows = omega arith
length-take-map (suc n) [] = omega arith
length-take-map (suc n) (x ∷ rows) = omega (arith, length-take-map n rows)

map_rows-append :
    (xs ys : BTreeMap ℕ Record) → map row_record (xs ++ ys) ≡ map row_record xs ++ map row_record ys
map_rows-append [] ys = refl
map_rows-append (x ∷ xs) ys = ap (λ t. row_record x ∷ t) (map_rows-append xs ys)

short_page :
    (n : ℕ) (rows : BTreeMap ℕ Record) (r : ℕ × Record) (rest : BTreeMap ℕ Record)
    → take n rows ≡ r ∷ rest
    → length (map row_record (r ∷ rest)) ≤ n
short_page n rows r rest e =
    subst (λ (x : BTreeMap ℕ Record). length (map row_record x) ≤ n) e (length-take-map n rows)

not_empty : (n : ℕ) → not (suc n == 0) ≡ true
not_empty n = ground arith

stage_all_nil :
    (codec : Codec) (has_object : Text → Bool) (index : Index)
    → stage_all codec has_object index [] ≡ ok index
unfolding stage_all
stage_all_nil codec has_object index = refl

no_rows : (rows : BTreeMap ℕ Record) → length rows ≤ 0 → rows ≡ []
no_rows [] h = refl
no_rows (x ∷ rows) h = absurd (omega arith)

module _ (check : ℕ → Result (Unit {0})) (codec : Codec) (has_object : Text → Bool) (remote : Hello)
    (c : (n : ℕ) → check n ≡ ok tt) where
  -- One page, once its checks pass.
  read_metadata-page :
      (last last' : ℕ) (r : Record) (rs : List Record) (more : List Metadata) (index : Index)
      → length (r ∷ rs) ≤ 32
      → in_order last remote.sequence (r ∷ rs) ≡ ok last'
      → read_metadata check codec has_object (ok tt) remote last (page (r ∷ rs) ∷ more) index ≡ (
          stage_all codec has_object index (r ∷ rs) >>= λ (next : Index).
          read_metadata check codec has_object (ok tt) remote last' more next)
  unfolding read_metadata stage
  read_metadata-page last last' r rs more index l o = rw (
    read_metadata,
    c last,
    le→leb (length (r ∷ rs)) 32 l,
    not_empty (length rs),
    o,
    stage,
    le→leb (length (r ∷ rs)) 256 (omega arith),
  )

  read_metadata-messages :
      (fuel k last : ℕ) (index : Index) (rows : BTreeMap ℕ Record)
      → IsSorted rows
      → AreNumbered rows
      → All (λ (x : ℕ × Record). x.0 ≤ remote.sequence) rows
      → last ≤ k
      → length (rows_after k rows) ≤ fuel
      → read_metadata check codec has_object
          (ok tt)
          remote
          last
          (messages (pages fuel 32 k rows))
          index
        ≡ stage_all codec has_object index (map row_record (rows_after k rows))
  unfolding pages read_metadata
  read_metadata-messages zero k last index rows s a w l h =
      rw (c last, no_rows (rows_after k rows) h, stage_all_nil codec has_object index)
  read_metadata-messages (suc fuel) k last index rows s a w l h =
      elim (List-cases (take 32 (rows_after k rows))) [
        | inl e ↦ rw (
          pages,
          e,
          c last,
          take-empty 32 (rows_after k rows) (omega arith) e,
          stage_all_nil codec has_object index,
        )
        | inr (r, rest, e) ↦
            let rows' = rows_after (last_key r rest) rows in
            let split = page-rows_after 32 k rows r rest s e in
            let numbered : AreNumbered (r ∷ rest) =
              All-page (λ (x : ℕ × Record). x.1.seq ≡ x.0) (r ∷ rest) rows'
                (subst AreNumbered split
                  (All-rows_after k (λ (x : ℕ × Record). x.1.seq ≡ x.0) rows a)) in
            let within : All (λ (x : ℕ × Record). x.0 ≤ remote.sequence) (r ∷ rest) =
              All-page (λ (x : ℕ × Record). x.0 ≤ remote.sequence) (r ∷ rest) rows'
                (subst (All (λ (x : ℕ × Record). x.0 ≤ remote.sequence)) split
                  (All-rows_after k (λ (x : ℕ × Record). x.0 ≤ remote.sequence) rows w)) in
            let sorted : IsSorted ((r ∷ rest) ++ rows') =
              subst IsSorted split (rows_after-IsSorted k rows s) in
            let above : Above k ((r ∷ rest) ++ rows') =
              subst (Above k) split (Above-rows_after_self k rows) in
            let ordered =
              in_order-last_key check last remote.sequence r rest rows' numbered within sorted
                (omega (arith, ≺→lt k r.0 above.0, l)) in
            rw (pages, e)
              (read_metadata-page last (last_key r rest) r.1 (map row_record rest)
                  (messages (pages fuel 32 (last_key r rest) rows)) index
                  (short_page 32 (rows_after k rows) r rest e) ordered
                ∙ >>=-cong (stage_all codec has_object index (map row_record (r ∷ rest))) _ _
                    (λ next _.
                      read_metadata-messages fuel (last_key r rest) (last_key r rest) next rows s a
                        w (omega arith) (omega (arith, ap length split, length-append rest rows')))
                ∙ sym (
                    stage_all-append codec has_object index (map row_record (r ∷ rest))
                      (map row_record rows'))
                ∙ ap (stage_all codec has_object index)
                    (sym (map_rows-append (r ∷ rest) rows') ∙ ap (map row_record) (sym split)))
      ]

up_to-All :
    (n : ℕ) (rows : BTreeMap ℕ Record)
    → All (λ (x : ℕ × Record). x.0 ≤ n) rows
    → up_to n rows ≡ rows
unfolding up_to
up_to-All n [] a = refl
up_to-All n (e ∷ rows) a = rw (le→leb e.0 n a.0, up_to-All n rows a.1)

-- For the valid index of a device that may send to one that may receive, approvals that are given, and
-- a peer's cursor that is not beyond its counter: the device sends its messages, and the peer that
-- reads them stages the rows after the cursor, all of them, in the order of their numbers, with the
-- result (or the error) that staging them in one go has.
pub metadata_exchange :
    (sending receiving : ℕ → Result (Unit {0})) (codec : Codec) (has_object : Text → Bool)
    (index peer : Index) (mine theirs : Hello)
    → ((n : ℕ) → sending n ≡ ok tt)
    → ((n : ℕ) → receiving n ≡ ok tt)
    → IsValid index
    → mine.sequence ≡ index.sequence
    → index.sequence < 2 ^ 63
    → is_receive_only mine.mode ≡ false
    → is_send_only theirs.mode ≡ false
    → start_after mine theirs ≤ index.sequence
    → (sent : List Metadata) × (send_metadata sending index mine theirs ≡ ok sent)
      × (read_metadata receiving codec has_object (ok tt) mine 0 sent peer
          ≡ stage_all codec has_object peer
              (map row_record (rows_after (start_after mine theirs) (by_seq index.entries))))
unfolding send_metadata
metadata_exchange sending receiving codec has_object index peer mine theirs s r v same small m t
      le =
    let since = start_after mine theirs in
    let small' : mine.sequence < 2 ^ 63 = omega (arith, same) in
    let le' : since ≤ mine.sequence = omega (arith, same) in
    let rows = up_to mine.sequence (by_seq index.entries) in
    let fuel = suc (length index.entries) in
    let few : length (rows_after since rows) < fuel = omega (
      arith,
      length-rows_after since rows,
      length-up_to mine.sequence (by_seq index.entries),
      length-by_seq index.entries,
    ) in
    let all_rows : rows ≡ by_seq index.entries = up_to-All mine.sequence (by_seq index.entries) (
      by_seq-le mine.sequence index.entries
        (subst (λ (n : ℕ). AtMost n index.entries) (sym same) v.at_most)) in
    (
      messages (pages fuel 32 since rows),
      rw (send_metadata, m, t, le→leb since mine.sequence le')
          (send_pages-messages sending fuel index since mine.sequence s v small' le' few),
      read_metadata-messages receiving codec has_object mine r fuel since 0 peer rows
            (rows-IsSorted index mine.sequence v)
            (All-up_to (λ (x : ℕ × Record). x.1.seq ≡ x.0) mine.sequence (by_seq index.entries)
              (by_seq-AreNumbered index.entries))
            (up_to-le mine.sequence (by_seq index.entries)) (omega arith) (omega (arith, few))
          ∙ ap
              (λ (x : BTreeMap ℕ Record).
                stage_all codec has_object peer (map row_record (rows_after since x)))
              all_rows,
    )
