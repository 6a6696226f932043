-- ===== src/Transport/Receiving.antt =====
-- The receiver of src/transport.rs against the sender: what is written is read, and put.
use mathlib.Core.List.{append_assoc}
use happy_active_everywhere.Base.{
  ℕ, ◌<◌, ◌^◌, false, List, [], ◌∷◌, ◌++◌, length, ◌≡◌, refl, arith, ap, Result, ok, ◌∙◌, sym,
  subst, ==_iff, ◌⊎◌, inl, inr,
}
use happy_active_everywhere.Base.In.{In}
use happy_active_everywhere.Base.Text.{Text}
use happy_active_everywhere.Storage.{Manifest, block_len, validate, offset, Receiver, put}
use happy_active_everywhere.Storage.FileBytes.{Bytes, write_at}
use happy_active_everywhere.Storage.Blocks.{validate-sizes}
use happy_active_everywhere.Storage.Reading.{block_at}
use happy_active_everywhere.Storage.Puts.{IsStored, put-eq, put-IsStored, put_keeps}
use happy_active_everywhere.Wire.Streams.{recv_exact-append}
use happy_active_everywhere.Transport.{write_u64, send_blocks, receive_blocks}
use happy_active_everywhere.Transport.Words.{read_u64-write_u64}
use happy_active_everywhere.Transport.Sending.{Describes, Describes-block, send_blocks-step}

-- Indices of a valid manifest have 64 bits.
below_64 : (m : Manifest) (i : ℕ) → validate m ≡ ok tt → i < length m.blocks → i < 2 ^ 64
below_64 m i v l = let (s, e) = validate-sizes m v in omega arith

module _ (hash : Bytes → Text) (check : ℕ → Result (Unit {0})) where
  receive_blocks-step :
      (r r1 : Receiver) (i n : ℕ) (bytes rest : Bytes) (missing : List ℕ) {acks : List ℕ}
      {end : Bytes} {r2 : Receiver}
      → check i ≡ ok tt
      → i < 2 ^ 64
      → block_len r.manifest i ≡ ok n
      → length bytes ≡ n
      → put hash r i bytes ≡ ok r1
      → receive_blocks hash check missing rest r1 ≡ ok (acks, end, r2)
      → receive_blocks hash check (i ∷ missing) (write_u64 i ++ (bytes ++ rest)) r
        ≡ ok (i ∷ acks, end, r2)
  unfolding receive_blocks
  receive_blocks-step r r1 i n bytes rest missing c b e l p h = rw (
    receive_blocks,
    c,
    read_u64-write_u64 i (bytes ++ rest) b,
    (==_iff i i).1 refl,
    e,
    recv_exact-append n bytes rest l,
    p,
    h,
  )

  abbrev pub Exchanged : Manifest → List ℕ → Bytes → Bytes → Receiver → Receiver → Type 0
  Exchanged m missing stream rest r r' =
      (receive_blocks hash check missing (stream ++ rest) r ≡ ok (missing, rest, r'))
      × (r'.manifest ≡ m)
      × ((j : ℕ) → In j missing ⊎ IsStored hash m j r.part → IsStored hash m j r'.part)

  put_keeps_all :
      (m : Manifest) (r r1 r' : Receiver) (i : ℕ) (bytes : Bytes) (missing : List ℕ) (j : ℕ)
      → validate m ≡ ok tt
      → r.manifest ≡ m
      → put hash r i bytes ≡ ok r1
      → (In j missing ⊎ IsStored hash m j r1.part → IsStored hash m j r'.part)
      → In j (i ∷ missing) ⊎ IsStored hash m j r.part
      → IsStored hash m j r'.part
  put_keeps_all m r r1 r' i bytes missing j v q p kept (inl (inl e)) = kept (
      inr (
        subst (λ (x : ℕ). IsStored hash m x r1.part) (sym e)
          (subst (λ (x : Manifest). IsStored hash x i r1.part) q (put-IsStored hash r i bytes p))))
  put_keeps_all m r r1 r' i bytes missing j v q p kept (inl (inr a)) = kept (inl a)
  put_keeps_all m r r1 r' i bytes missing j v q p kept (inr t) = kept (
      inr (
        subst (λ (x : Manifest). IsStored hash x j r1.part) q
          (put_keeps hash r i j bytes (rw q v) p
            (subst (λ (x : Manifest). IsStored hash x j r.part) (sym q) t))))

  -- The sender's loop and the receiver's loop, over the blocks of a source that does not change.
  pub send_blocks-receive_blocks :
      (sending : ℕ → Result (Unit {0})) (m : Manifest) (source : Bytes) (missing : List ℕ)
      (rest : Bytes) (r : Receiver)
      → ((j : ℕ) → sending j ≡ ok tt)
      → ((j : ℕ) → check j ≡ ok tt)
      → Describes hash m source
      → ((j : ℕ) → In j missing → j < length m.blocks)
      → r.manifest ≡ m
      → r.finished ≡ false
      → (stream : Bytes) × (send_blocks hash sending source m missing ≡ ok stream)
        × (r' : Receiver) × Exchanged m missing stream rest r r'
  unfolding send_blocks receive_blocks
  send_blocks-receive_blocks sending m source [] rest r s c d within q f =
      ([], refl, r, (refl, q, λ j. elim [ inl a ↦ absurd a | inr t ↦ t ]))
  send_blocks-receive_blocks sending m source (i ∷ missing) rest r s c d within q f =
      let (n, e, l, _, same) = Describes-block hash m source i d (within i (inl refl)) in
      let b = block_at m.size i source in
      let r1 : Receiver = record r { part = write_at (offset i) b r.part } in
      let p : put hash r i b ≡ ok r1 = put-eq hash r i n b f (rw q e) l (rw q same) in
      let (stream, sent, r', (got, q', kept)) =
        send_blocks-receive_blocks sending m source missing rest r1 s c d (λ j a. within j (inr a))
          q f in
      (
        write_u64 i ++ (b ++ stream),
        send_blocks-step hash sending m source i missing stream (s i) d (within i (inl refl)) sent,
        r',
        (
          subst
              (λ (all : Bytes).
                receive_blocks hash check (i ∷ missing) all r ≡ ok (i ∷ missing, rest, r'))
              (sym (
                append_assoc (write_u64 i) (b ++ stream) rest
                ∙ ap (λ t. write_u64 i ++ t) (append_assoc b stream rest)))
              (receive_blocks-step r r1 i n b (stream ++ rest) missing (c i)
                (below_64 m i d.0 (within i (inl refl))) (rw q e) l p got),
          q',
          (λ j. put_keeps_all m r r1 r' i b missing j d.0 q p (kept j)),
        ),
      )
