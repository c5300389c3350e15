-- ===== src/Core/Hash/Stream.antt =====
-- The hasher against FIPS 180-4: what `update` keeps, whatever the split of the message.
use veritas.Common.{
  ℕ, suc, ◌+◌, ◌-◌, ◌%◌, ◌^◌, ◌≤◌, ◌<◌, min, true, false, [], ◌∷◌, ◌++◌, Bytes, length, take, drop,
  leb, ◌==◌, ◌≡◌, refl, sym, ap, ◌∙◌, arith, Bool-cases, inl, inr, length-append, length-drop,
  length-take, take_exact, take_all, drop_all, take-append_past, drop-append_past, append-nil,
  append_assoc,
}
use veritas.Core.Hash.Words.{State, h0, process_block}
use veritas.Core.Hash.Hasher.{Hasher, fresh, memcpy, drain, fill, keep, absorb, update}
use veritas.Core.Hash.Drain.{drain_small, drain_full, drain_fuel, drain_rest, drain-append}

-- The array has its size, and the count of pending bytes stays below it.
pub record IsValid (h : Hasher) : Type 0 where
  pub size : length h.buffer ≡ 64
  pub room : h.buffered < 64

-- The bytes that wait for the rest of their block.
abbrev pub pending : Hasher → Bytes
pending h = take h.buffered h.buffer

abbrev pub view : Hasher → State × Bytes
view h = (h.state, pending h)

length-memcpy :
    (array : Bytes) (offset : ℕ) (bytes : Bytes)
    → offset + length bytes ≤ length array
    → length (memcpy array offset bytes) ≡ length array
length-memcpy array offset bytes h = omega (
  arith,
  length-append (take offset array) (bytes ++ drop (offset + length bytes) array),
  length-append bytes (drop (offset + length bytes) array),
  length-take offset array,
  length-drop (offset + length bytes) array,
)

-- The bytes up to the end of what was copied.
take-memcpy :
    (array : Bytes) (offset n : ℕ) (bytes : Bytes)
    → offset + length bytes ≡ n
    → n ≤ length array
    → take n (memcpy array offset bytes) ≡ take offset array ++ bytes
take-memcpy array offset n bytes e h =
    ap (take n) (sym (append_assoc (take offset array) bytes _))
    ∙ take_exact n (take offset array ++ bytes) _
        (omega (arith, length-append (take offset array) bytes, length-take offset array))

pub length-pending : (h : Hasher) → IsValid h → length (pending h) ≡ h.buffered
length-pending h v = omega (arith, v.size, v.room, length-take h.buffered h.buffer)

-- What `keep` leaves in an empty buffer.
keep_lem :
    (h : Hasher) (s : State) (rest : Bytes)
    → length h.buffer ≡ 64
    → h.buffered ≡ 0
    → length rest < 64
    → IsValid (keep h s rest)
      × (view (keep h s rest) ≡ (s, rest))
      × ((keep h s rest).total_bytes ≡ h.total_bytes)
unfolding keep
keep_lem h s [] size empty small = (ground arith, ap (λ n. (s, take n h.buffer)) empty, refl)
keep_lem h s (x ∷ xs) size empty small =
    let some_left : suc (length xs) == 0 ≡ false = ground arith in
    rw (some_left, keep)
      (
        record { size = length-memcpy h.buffer 0 (x ∷ xs) (omega arith) ∙ size; room = small },
        ap (λ bytes. (s, bytes))
            (take-memcpy h.buffer 0 (length (x ∷ xs)) (x ∷ xs) (omega arith) (omega arith)),
        refl,
      )

absorb_lem :
    (h : Hasher) (bytes : Bytes)
    → length h.buffer ≡ 64
    → h.buffered ≡ 0
    → IsValid (absorb h bytes)
      × (view (absorb h bytes) ≡ drain (length bytes) h.state bytes)
      × ((absorb h bytes).total_bytes ≡ h.total_bytes)
unfolding absorb
absorb_lem h bytes size empty =
    keep_lem h _ _ size empty (drain_rest (length bytes) h.state bytes (omega arith))

module _ (h : Hasher) (bytes : Bytes) (v : IsValid h) (waiting : 0 < h.buffered) where
  -- What is copied ends where the bytes or the buffer do.
  memcpy-pending :
      (n : ℕ)
      → n ≤ length bytes
      → h.buffered + n ≤ 64
      → memcpy h.buffer h.buffered (take n bytes)
        ≡ (pending h ++ take n bytes) ++ drop (h.buffered + n) h.buffer
  memcpy-pending n enough fits =
      ap (λ k. pending h ++ (take n bytes ++ drop (h.buffered + k) h.buffer))
        (length-take n bytes ∙ omega arith)
      ∙ sym (append_assoc (pending h) (take n bytes) _)

  -- `fill`, where the buffer becomes full.
  fill_full :
      64 ≤ h.buffered + length bytes
      → fill h bytes ≡ (
        record h {
          state = process_block h.state (take 64 (pending h ++ bytes));
          buffer = take 64 (pending h ++ bytes);
          buffered = 0;
        },
        drop 64 (pending h ++ bytes),
      )
  unfolding fill
  fill_full enough =
      let n = 64 - h.buffered in
      let copied : min (length bytes) n ≡ n = omega (arith, v.room) in
      let filled : memcpy h.buffer h.buffered (take n bytes) ≡ take 64 (pending h ++ bytes) =
        memcpy-pending n (omega arith) (omega (arith, v.room))
        ∙ ap (◌++◌ (pending h ++ take n bytes))
            (drop_all (h.buffered + n) h.buffer (omega (arith, v.room, v.size)))
        ∙ append-nil _
        ∙ sym
            (take-append_past 64 n (pending h) bytes (omega (arith, length-pending h v, v.room))) in
      let left : drop n bytes ≡ drop 64 (pending h ++ bytes) =
        sym (drop-append_past 64 n (pending h) bytes (omega (arith, length-pending h v, v.room))) in
      let open_ : h.buffered == 0 ≡ false = ground arith in
      let full : h.buffered + n == 64 ≡ true = ground (arith, v.room) in
      rw (open_, copied, full, filled, left)

  -- `fill`, where the bytes all fit.
  fill_part :
      h.buffered + length bytes < 64
      → fill h bytes ≡ (
        record h {
          buffer = memcpy h.buffer h.buffered bytes;
          buffered = h.buffered + length bytes;
        },
        [],
      )
  unfolding fill
  fill_part small =
      let copied : min (length bytes) (64 - h.buffered) ≡ length bytes = omega arith in
      let open_ : h.buffered == 0 ≡ false = ground arith in
      let part : h.buffered + length bytes == 64 ≡ false = ground arith in
      rw (
        open_,
        copied,
        part,
        take_all (length bytes) bytes (omega arith),
        drop_all (length bytes) bytes (omega arith),
      )

record Updates (h k : Hasher) (bytes : Bytes) : Type 0 where
  valid : IsValid k
  viewed : view k ≡ drain (64 + length bytes) h.state (pending h ++ bytes)
  total : k.total_bytes ≡ h.total_bytes

module _ (h : Hasher) (bytes : Bytes) (v : IsValid h) where
  -- The buffer is empty before and after `fill`.
  Updates-empty : h.buffered ≡ 0 → Updates h (absorb (fill h bytes).0 (fill h bytes).1) bytes
  unfolding fill
  Updates-empty e =
      let is_zero : h.buffered == 0 ≡ true = ground arith in
      let (valid, viewed, total) = absorb_lem h bytes v.size e in
      rw is_zero (record {
        valid = valid;
        viewed =
            viewed
            ∙ drain_fuel (length bytes) (64 + length bytes) h.state bytes (omega arith)
                (omega arith)
            ∙ sym (ap (λ n. drain (64 + length bytes) h.state (take n h.buffer ++ bytes)) e);
        total = total;
      })

  -- `fill` completes the block.
  Updates-full :
      0 < h.buffered
      → 64 ≤ h.buffered + length bytes
      → Updates h (absorb (fill h bytes).0 (fill h bytes).1) bytes
  Updates-full waiting enough =
      let all = pending h ++ bytes in
      let size : length all ≡ h.buffered + length bytes =
        length-append (pending h) bytes ∙ ap (λ n. n + length bytes) (length-pending h v) in
      let filled = record h {
        state = process_block h.state (take 64 all);
        buffer = take 64 all;
        buffered = 0;
      } in
      let (valid, viewed, total) =
        absorb_lem filled (drop 64 all) (omega (arith, size, length-take 64 all)) refl in
      rw (fill_full h bytes v waiting enough) (record {
        valid = valid;
        viewed =
            viewed
            ∙ drain_fuel (length (drop 64 all)) (length all) filled.state (drop 64 all)
                (omega (arith, length-drop 64 all)) (omega (arith, length-drop 64 all))
            ∙ sym (drain_full (length all) h.state all (omega arith))
            ∙ drain_fuel (suc (length all)) (64 + length bytes) h.state all (omega arith)
                (omega (arith, v.room));
        total = total;
      })

  -- All bytes fit into the block that is not complete.
  Updates-part :
      0 < h.buffered
      → h.buffered + length bytes < 64
      → Updates h (absorb (fill h bytes).0 (fill h bytes).1) bytes
  unfolding absorb keep drain
  Updates-part waiting small =
      let size : length (pending h ++ bytes) ≡ h.buffered + length bytes =
        length-append (pending h) bytes ∙ ap (λ n. n + length bytes) (length-pending h v) in
      rw (fill_part h bytes v waiting small) (record {
        valid = record {
          size = length-memcpy h.buffer h.buffered bytes (omega (arith, v.size)) ∙ v.size;
          room = small;
        };
        viewed =
            ap (λ p. (h.state, p))
              (take-memcpy h.buffer h.buffered (h.buffered + length bytes) bytes refl
                (omega (arith, v.size)))
            ∙ sym (drain_small (64 + length bytes) h.state (pending h ++ bytes) (omega arith));
        total = refl;
      })

  fill-absorb : Updates h (absorb (fill h bytes).0 (fill h bytes).1) bytes
  fill-absorb = elim (Bool-cases (h.buffered == 0)) [
    | inl empty ↦ Updates-empty (ground arith)
    | inr waiting ↦ elim (Bool-cases (leb 64 (h.buffered + length bytes))) [
      | inl full ↦ Updates-full (ground arith) (ground arith)
      | inr part ↦ Updates-part (ground arith) (ground arith)
    ]
  ]

-- `update` keeps the invariant, and drains the pending bytes with the new ones behind them.
pub record Updated (h k : Hasher) (bytes : Bytes) : Type 0 where
  pub valid : IsValid k
  pub viewed : view k ≡ drain (64 + length bytes) h.state (pending h ++ bytes)
  pub total : k.total_bytes % 2 ^ 64 ≡ (h.total_bytes + length bytes) % 2 ^ 64

pub update_lem : (h : Hasher) (bytes : Bytes) → IsValid h → Updated h (update h bytes) bytes
unfolding update
update_lem h [] v = record {
  valid = v;
  viewed =
      ap (λ p. (h.state, p)) (sym (append-nil (pending h)))
      ∙ sym (
          drain_small (64 + 0) h.state (pending h ++ [])
            (rw (append-nil (pending h)) (omega (arith, length-pending h v, v.room))));
  total = omega arith;
}
update_lem h (x ∷ xs) v =
    let counted = record h { total_bytes = (h.total_bytes + length (x ∷ xs)) % 2 ^ 64 } in
    let u = fill-absorb counted (x ∷ xs) (record { size = v.size; room = v.room }) in
    let some_bytes : suc (length xs) == 0 ≡ false = ground arith in
    rw some_bytes (record { valid = u.valid; viewed = u.viewed; total = rw u.total (omega arith) })

-- The hasher has read the message `m`.
pub record Reads (h : Hasher) (m : Bytes) : Type 0 where
  pub valid : IsValid h
  pub viewed : view h ≡ drain (length m) h0 m
  pub total : h.total_bytes % 2 ^ 64 ≡ length m % 2 ^ 64

pub Reads-fresh : Reads fresh []
unfolding drain
Reads-fresh = record { valid = omega arith; viewed = refl; total = refl }

pub Reads-update : (h : Hasher) (m bytes : Bytes) → Reads h m → Reads (update h bytes) (m ++ bytes)
Reads-update h m bytes r =
    let u = update_lem h bytes r.valid in
    let size = length-append m bytes in
    let fuel = 64 + (length m + length bytes) in
    let left : length (drain (length m) h0 m).1 < 64 = drain_rest (length m) h0 m (omega arith) in
    let early : drain (length m) h0 m ≡ drain fuel h0 m =
      drain_fuel (length m) fuel h0 m (omega arith) (omega arith) in
    let size' = length-append (pending h) bytes in
    let start = length-pending h r.valid in
    record {
      valid = u.valid;
      viewed =
          u.viewed
          ∙ drain_fuel (64 + length bytes) fuel h.state (pending h ++ bytes)
              (omega (arith, r.valid.room)) (omega (arith, r.valid.room))
          ∙ ap (λ (p : State × Bytes). drain fuel p.0 (p.1 ++ bytes)) (r.viewed ∙ early)
          ∙ sym (drain-append fuel h0 m bytes (omega arith))
          ∙ drain_fuel fuel (length (m ++ bytes)) h0 (m ++ bytes) (omega arith) (omega arith);
      total = omega (arith, u.total, r.total, size);
    }
