-- ===== src/Kv/Iterate/Listing.antt =====
-- One read of an iterator lists the keys of the slots that it passes.
use wild_cat.Common.{
  ℕ, zero, suc, ◌+◌, ◌-◌, ◌*◌, ◌≤◌, ◌<◌, ◌≡◌, refl, ◌∙◌, ap, Bool, true, false, inl, inr,
  Bool-cases, ◌==◌, ◌&&◌, if◌then◌else◌, arith,
}
use wild_cat.Kv.Table.{KvTable}
use wild_cat.Kv.Transfer.{memcpy}
use wild_cat.Kv.Transfer.Bytes.{in_range, memcpy_here, memcpy_other}
use wild_cat.Kv.State.{IterContext}
use wild_cat.Kv.Iterate.{
  word_bytes, key_length, record_length, matches, IterScan, list_key, no_room, next_pos, scan_slots,
  scan_from, slots_left,
}

abbrev unit_of : Bool → ℕ
unit_of b = if b then 1 else 0

-- more than no slots
abbrev pub is_some : ℕ → Bool
is_some zero = false
is_some (suc n) = true

module _ (t : KvTable) (h : IterContext) where
  -- how many of the first `n` slots from the position of the iterator on are to be listed
  unfoldable pub listed : ℕ → ℕ
  listed zero = 0
  listed (suc n) = listed n + unit_of (matches t h (h.current_pos + n))

  listed-lt : (m n : ℕ) → m < n → matches t h (h.current_pos + m) ≡ true → listed m < listed n
  unfolding listed
  listed-lt m zero lt e = absurd (omega (arith, lt))
  listed-lt m (suc n) lt e = elim (Bool-cases (m == n)) [
    | inl same ↦
        let last : m ≡ n = ground (arith, same) in
        let here : matches t h (h.current_pos + n) ≡ true = rw (← last) e in
        rw (last, here) (omega arith)
    | inr other ↦ let before = listed-lt m n (ground (arith, lt, other)) e in omega (arith, before)
  ]

  -- After `n` slots the buffer holds the keys that were to be listed, one behind the other, each
  -- after its length.
  pub record IsListing (n : ℕ) (s : IterScan) : Type 0 where
    pub position : s.pos ≡ h.current_pos + n
    pub counted : s.nr_keys ≡ listed n
    pub filled : s.buf_offset ≡ 4 + record_length * s.nr_keys
    pub room : s.buf_offset ≤ 1024
    pub ended : s.at_end ≡ (is_some n && (s.pos == t.hash_slots))
    pub keys :
        (m i : ℕ)
        → m < n
        → matches t h (h.current_pos + m) ≡ true
        → i < key_length
        → s.buf (4 + record_length * listed m + 4 + i) ≡ (t.slots (h.current_pos + m)).key i
    pub lengths :
        (m i : ℕ)
        → m < n
        → matches t h (h.current_pos + m) ≡ true
        → i < 4
        → s.buf (4 + record_length * listed m + i) ≡ word_bytes key_length i

  passed-IsListing :
      (n : ℕ) (s : IterScan)
      → matches t h s.pos ≡ false
      → IsListing n s
      → IsListing (suc n) (next_pos t s)
  unfolding listed
  passed-IsListing n s differs l =
      let differs' : matches t h (h.current_pos + n) ≡ false = rw (← l.position) differs in
      record {
        position = omega (arith, l.position);
        counted = l.counted ∙ rw differs' (omega arith);
        filled = l.filled;
        room = l.room;
        ended = refl;
        keys = λ m i lt e small. elim (Bool-cases (m == n)) [
          | inl same ↦ absurd (ground (arith, same, differs', e))
          | inr other ↦ l.keys m i (ground (arith, lt, other)) e small
        ];
        lengths = λ m i lt e small. elim (Bool-cases (m == n)) [
          | inl same ↦ absurd (ground (arith, same, differs', e))
          | inr other ↦ l.lengths m i (ground (arith, lt, other)) e small
        ];
      }

  -- the bytes of the record that is added, and those before it
  key_byte :
      (s : IterScan) (i : ℕ)
      → i < key_length
      → (list_key t s).buf (s.buf_offset + 4 + i) ≡ (t.slots s.pos).key i
  unfolding list_key
  key_byte s i small = ground (arith, small)

  length_byte :
      (s : IterScan) (i : ℕ)
      → i < 4
      → (list_key t s).buf (s.buf_offset + i) ≡ word_bytes key_length i
  unfolding list_key
  length_byte s i small =
      let off = s.buf_offset in
      let before : in_range (off + i) (off + 4) (off + 4 + key_length) ≡ false =
        ground (arith, small) in
      let here : in_range (off + i) off (off + 4) ≡ true = ground (arith, small) in
      let place : 0 + (off + i - off) ≡ i = omega arith in
      memcpy_other (memcpy s.buf off (word_bytes key_length) 0 4) (t.slots s.pos).key (off + 4) 0
        key_length (off + i) before
      ∙ memcpy_here s.buf (word_bytes key_length) off 0 4 (off + i) here
      ∙ ap (word_bytes key_length) place

  older_byte : (s : IterScan) (x : ℕ) → x < s.buf_offset → (list_key t s).buf x ≡ s.buf x
  unfolding list_key
  older_byte s x lt =
      let off = s.buf_offset in
      let key : in_range x (off + 4) (off + 4 + key_length) ≡ false = ground (arith, lt) in
      let word : in_range x off (off + 4) ≡ false = ground (arith, lt) in
      memcpy_other (memcpy s.buf off (word_bytes key_length) 0 4) (t.slots s.pos).key (off + 4) 0
        key_length x key
      ∙ memcpy_other s.buf (word_bytes key_length) off 0 4 x word

  list_key-nr : (s : IterScan) → (list_key t s).nr_keys ≡ suc s.nr_keys
  unfolding list_key
  list_key-nr s = refl

  list_key-offset : (s : IterScan) → (list_key t s).buf_offset ≡ s.buf_offset + record_length
  unfolding list_key
  list_key-offset s = refl

  list_key-pos : (s : IterScan) → (list_key t s).pos ≡ s.pos
  unfolding list_key
  list_key-pos s = refl

  listed_key-IsListing :
      (n : ℕ) (s : IterScan)
      → matches t h s.pos ≡ true
      → no_room s ≡ false
      → IsListing n s
      → IsListing (suc n) (next_pos t (list_key t s))
  unfolding listed
  listed_key-IsListing n s found fits l =
      let found' : matches t h (h.current_pos + n) ≡ true = rw (← l.position) found in
      let own : s.buf_offset ≡ 4 + record_length * listed n =
        l.filled ∙ ap (λ k. 4 + record_length * k) l.counted in
      record {
        position = rw (list_key-pos s) (omega (arith, l.position));
        counted = list_key-nr s ∙ ap suc l.counted ∙ rw found' (omega arith);
        filled = rw (list_key-nr s, list_key-offset s) (omega (arith, l.filled));
        room = rw (list_key-offset s) (ground (arith, fits));
        ended = refl;
        keys = λ m i lt e small. elim (Bool-cases (m == n)) [
          | inl same ↦
              let last : m ≡ n = ground (arith, same) in
              rw (last, ← own) (key_byte s i small ∙ ap (λ p. (t.slots p).key i) l.position)
          | inr other ↦
              let lt' : m < n = ground (arith, lt, other) in
              let before = listed-lt m n lt' e in
              older_byte s _ (omega (arith, own, before, small)) ∙ l.keys m i lt' e small
        ];
        lengths = λ m i lt e small. elim (Bool-cases (m == n)) [
          | inl same ↦
              let last : m ≡ n = ground (arith, same) in rw (last, ← own) (length_byte s i small)
          | inr other ↦
              let lt' : m < n = ground (arith, lt, other) in
              let before = listed-lt m n lt' e in
              older_byte s _ (omega (arith, own, before, small)) ∙ l.lengths m i lt' e small
        ];
      }

  -- A read stops at the end of the table, or at a slot whose key finds no room.
  pub data Stopped (n : ℕ) (s : IterScan) : Type 0 where
    at_the_end : n ≡ slots_left t h → Stopped n s
    at_full :
        n < slots_left t h
        → matches t h s.pos ≡ true
        → 1024 < s.buf_offset + record_length
        → Stopped n s

  full-IsListing : (n : ℕ) (s : IterScan) → IsListing n s → IsListing n (record s { full = true })
  full-IsListing n s l = record {
    position = l.position;
    counted = l.counted;
    filled = l.filled;
    room = l.room;
    ended = l.ended;
    keys = l.keys;
    lengths = l.lengths;
  }

  scan_slots-IsListing :
      (left n : ℕ) (s : IterScan)
      → n + left ≡ slots_left t h
      → IsListing n s
      → (m : ℕ) × IsListing m (scan_slots left t h s) × Stopped m (scan_slots left t h s)
  unfolding scan_slots
  scan_slots-IsListing zero n s all l = (n, l, at_the_end (omega (arith, all)))
  scan_slots-IsListing (suc left) n s all l = elim (Bool-cases (matches t h s.pos)) [
    | inr differs ↦
        rw (scan_slots, differs)
          (scan_slots-IsListing left (suc n) (next_pos t s) (omega (arith, all))
            (passed-IsListing n s differs l))
    | inl found ↦ elim (Bool-cases (no_room s)) [
      | inl full ↦
          rw (scan_slots, found, full)
            (n, full-IsListing n s l, at_full (omega (arith, all)) found (ground (arith, full)))
      | inr fits ↦
          rw (scan_slots, found, fits)
            (scan_slots-IsListing left (suc n) (next_pos t (list_key t s)) (omega (arith, all))
              (listed_key-IsListing n s found fits l))
    ]
  ]

  -- The scan of a read lists each key that is to be listed among the slots that it passes, each
  -- once and in their order, in at most 1024 bytes, and passes all slots that are left or stops at
  -- the first one whose key finds no room.
  pub scan_slots-lists :
      (m : ℕ) × IsListing m (scan_slots (slots_left t h) t h (scan_from h))
      × Stopped m (scan_slots (slots_left t h) t h (scan_from h))
  unfolding listed
  scan_slots-lists = scan_slots-IsListing (slots_left t h) 0 (scan_from h) (omega arith) (record {
    position = omega arith;
    counted = refl;
    filled = omega arith;
    room = omega arith;
    ended = refl;
    keys = λ m i lt e small. elim lt [ ];
    lengths = λ m i lt e small. elim lt [ ];
  })
