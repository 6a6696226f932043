-- ===== src/Transport/Transfer.antt =====
-- `send_object` and `receive_object` of src/transport.rs together: a transfer from a source that does
-- not change.
use happy_active_everywhere.Base.{
  ℕ, ◌+◌, ◌≤◌, ◌<◌, Bool, true, false, ◌&&◌, Option, some, List, [], ◌∷◌, ◌++◌, length, take, ltb,
  ascending, ◌≡◌, refl, arith, subst, Result, ok, ensure, ◌>>◌, >>=-eq-ok, ensure-eq-ok, ◌∙◌, ◌⊎◌,
  inl, inr, le→leb, ltb→lt, ==_iff,
}
use happy_active_everywhere.Base.In.{In}
use happy_active_everywhere.Base.Order.{◌≟◌, list_ord}
use happy_active_everywhere.Base.Text.{Text}
use happy_active_everywhere.Storage.{Manifest, OpenFile, from_file, Receiver, existing_file, Found}
use happy_active_everywhere.Storage.FileBytes.{Bytes, read_at}
use happy_active_everywhere.Base.{ok-injective}
use happy_active_everywhere.Storage.Manifests.{IsHexHash}
use happy_active_everywhere.Storage.Missing.{missing_from-LoopDone}
use happy_active_everywhere.Transport.{
  check_request, await_acks, offer, open_request, deliver, receive_blocks, send_blocks,
}
use happy_active_everywhere.Transport.Sending.{from_file-Describes, same_manifest_refl}
use happy_active_everywhere.Transport.Receiving.{send_blocks-receive_blocks}
use happy_active_everywhere.Transport.Content.{HasCollision, stored-content}

two_tests : (a b : Bool) → (a && b) ≡ true → (a ≡ true) × (b ≡ true)
two_tests a b h = ground arith

ascending_room :
    (n x : ℕ) (rest : List ℕ)
    → ascending (x ∷ rest) ≡ true
    → ((j : ℕ) → In j (x ∷ rest) → j < n)
    → x + length (x ∷ rest) ≤ n
ascending_room n x [] a h = omega (arith, h x (inl refl))
ascending_room n x (y ∷ rest) a h =
    let (less, a') = two_tests (ltb x y) (ascending (y ∷ rest)) a in
    omega (arith, ascending_room n y rest a' (λ j i. h j (inr i)), ltb→lt x y less)

length-ascending :
    (n : ℕ) (l : List ℕ) → ascending l ≡ true → ((j : ℕ) → In j l → j < n) → length l ≤ n
length-ascending n [] a h = omega arith
length-ascending n (x ∷ rest) a h = omega (arith, ascending_room n x rest a h)

-- An ascending list of the blocks' indices is a request the sender accepts.
check_request_passes :
    (m : Manifest) (missing : List ℕ)
    → ascending missing ≡ true
    → ((j : ℕ) → In j missing → j < length m.blocks)
    → check_request m missing ≡ ok tt
unfolding check_request
check_request_passes m missing a h = rw (
  check_request,
  le→leb (length missing) (length m.blocks) (length-ascending (length m.blocks) missing a h),
  a,
)

await_acks_passes : (missing : List ℕ) → await_acks missing missing ≡ ok tt
unfolding await_acks
await_acks_passes [] = refl
await_acks_passes (i ∷ missing) = rw (await_acks, (==_iff i i).1 refl) (await_acks_passes missing)

module _ (hash : Bytes → Text) where
  offer-checks :
      (f : OpenFile) (wanted : Text) {m : Manifest}
      → offer hash (ok tt) f wanted ≡ ok m
      → (from_file hash f ≡ ok m) × ((m.hash ≟ wanted) ≡ true)
  unfolding offer
  offer-checks f wanted {m} h =
      let (m', e, h1) =
        >>=-eq-ok (from_file hash f)
          (λ (x : Manifest). ensure (x.hash ≟ wanted) "shared content object is corrupt" >> ok x)
          h in
      let (t, h2) = ensure-eq-ok (m'.hash ≟ wanted) "shared content object is corrupt" (ok m') h1 in
      let same : m' ≡ m = ok-injective h2 in
      (e ∙ h2, subst (λ (x : Manifest). (x.hash ≟ wanted) ≡ true) same t)

  deliver-eq :
      (sending : ℕ → Result (Unit {0})) (f : OpenFile) (m : Manifest) (missing : List ℕ)
      (stream : Bytes)
      → from_file hash f ≡ ok m
      → check_request m missing ≡ ok tt
      → send_blocks hash sending f.bytes m missing ≡ ok stream
      → deliver hash sending (ok tt) f.bytes f m missing ≡ ok stream
  unfolding deliver
  deliver-eq sending f m missing stream e c s = rw (deliver, c, s, e, same_manifest_refl m)

  -- For a source that does not change and passes `offer`, approvals that are given, and a file to reuse
  -- that can be opened (if there is one), whatever part file is there: the receiver makes a request, the
  -- sender accepts and answers it, the receiver takes all that is sent and no byte that follows, its
  -- acknowledgements are those the sender waits for, and the part file then starts with the content of
  -- the source, unless at one of the blocks it has other bytes of the same length and with the same hash.
  -- A hash has 64 hexadecimal digits.
  pub transfer-content :
      (f : OpenFile) (wanted : Text) (part : Bytes) (target : Found) (basis : Option Found)
      (rest : Bytes) (sending receiving : ℕ → Result (Unit {0})) {m : Manifest}
      {existing : Option Bytes}
      → IsHexHash hash
      → offer hash (ok tt) f wanted ≡ ok m
      → existing_file target basis ≡ ok existing
      → ((j : ℕ) → sending j ≡ ok tt)
      → ((j : ℕ) → receiving j ≡ ok tt)
      → (missing : List ℕ) × (r : Receiver) × (stream : Bytes) × (r' : Receiver) × (open_request
            hash
            (ok tt)
            m
            wanted
            part
            target
            basis
          ≡ ok (missing, r))
        × (deliver hash sending (ok tt) f.bytes f m missing ≡ ok stream)
        × (receive_blocks hash receiving missing (stream ++ rest) r ≡ ok (missing, rest, r'))
        × (await_acks missing missing ≡ ok tt)
        × ((read_at 0 m.size r'.part ≡ some (take m.size f.bytes))
            ⊎ HasCollision hash m f.bytes r'.part)
  unfolding open_request
  transfer-content f wanted part target basis rest sending receiving {m} hex o x s c =
      let (e, t) = offer-checks f wanted o in
      let d = from_file-Describes hash f e hex in
      let r0 : Receiver = record { part = part; manifest = m; finished = false } in
      let ((missing, r), q, (same, fin, keeps, each, asked, up)) =
        missing_from-LoopDone hash r0 target basis d.0 refl x in
      let within : (j : ℕ) → In j missing → j < length m.blocks =
        λ j a. let (_, l, _, _) = asked j a in l in
      let (stream, sent, r', (got, _, kept)) =
        send_blocks-receive_blocks hash receiving sending m f.bytes missing rest r s c d within same
          fin in
      (
        missing,
        r,
        stream,
        r',
        rw (open_request, d.0, t, q),
        deliver-eq sending f m missing stream e (check_request_passes m missing up within) sent,
        got,
        await_acks_passes missing,
        stored-content hash m f.bytes r'.part d (λ j l. kept j (each j (omega arith) l)),
      )
