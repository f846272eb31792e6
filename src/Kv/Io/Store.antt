-- ===== src/Kv/Io/Store.antt =====
-- A store of a new key extends the dictionary, and a retrieval returns its bytes.
use wild_cat.Common.{
  ℕ, ◌+◌, ◌-◌, ◌^◌, ◌≤◌, ◌<◌, ◌≡◌, refl, sym, ◌∙◌, true, false, some, List, ◌⊎◌, inl, inr,
  Bool-cases, arith,
}
use wild_cat.Kv.Command.{KvCommand, cmd_key_length, cmd_value_length}
use wild_cat.Kv.Table.{KvTable, same_bytes}
use wild_cat.Kv.Table.Keys.{same_bytes_congr, same_bytes_comm}
use wild_cat.Kv.Table.Insert.{view}
use wild_cat.Kv.Table.Entry.{Added}
use wild_cat.Kv.Allocator.{AppendOnly, append_only_allocate}
use wild_cat.Zns.Report.{PrpCopy, io_size_at}
use wild_cat.Zns.Report.Copies.{IsReachable, Tiles, prp_transfer_data-Tiles}
use wild_cat.Kv.Transfer.{value_copies, take_in}
use wild_cat.Kv.Transfer.Bytes.{address_of, in_range, take_in_lem}
use wild_cat.Kv.State.{KvFtl}
use wild_cat.Kv.Io.Dictionary.{IsStore, Lacks, Extends}

-- The pages behind the first one of a command can be reached from its second address.
abbrev pub IsAligned : (ℕ → ℕ) → KvCommand → ℕ → Type 0
IsAligned entries cmd length = IsReachable entries cmd.prp2 (length - io_size_at cmd.prp1 length)

pub value_copies-Tiles :
    (entries : ℕ → ℕ) (cmd : KvCommand) (length : ℕ)
    → IsAligned entries cmd length
    → (cs : List PrpCopy) × (value_copies entries cmd length ≡ some cs) × Tiles 0 length cs
unfolding value_copies
value_copies-Tiles entries cmd length aligned =
    let (cs, e, tiles, at) = prp_transfer_data-Tiles entries cmd.prp1 cmd.prp2 length aligned in
    (cs, e, tiles)

-- the FTL after a store of a new key
abbrev stored : KvFtl AppendOnly → KvCommand → List PrpCopy → KvTable → KvFtl AppendOnly
stored f cmd cs t = record f {
  allocator = (append_only_allocate f.allocator (cmd_value_length cmd)).1;
  storage = take_in cs f.host f.storage f.allocator.latest;
  table = t;
}

module _ (f : KvFtl AppendOnly) (cmd : KvCommand) (cs : List PrpCopy) (t : KvTable)
    (s : IsStore f (cmd_key_length cmd)) (tiles : Tiles 0 (cmd_value_length cmd) cs)
    (added : Added f.table cmd.key (cmd_key_length cmd) (cmd_value_length cmd) f.allocator.latest t)
    (room : f.allocator.latest + cmd_value_length cmd < 2 ^ 64)
    (absent : Lacks f (cmd_key_length cmd) cmd.key) where
  -- bytes below the end of the allocation stay
  below_kept : (x : ℕ) → x < f.allocator.latest → (stored f cmd cs t).storage x ≡ f.storage x
  below_kept x lt =
      let outside : in_range x (f.allocator.latest + 0) (f.allocator.latest + cmd_value_length cmd)
          ≡ false =
        ground (arith, lt) in
      rw (take_in_lem cs f.host f.storage f.allocator.latest x tiles, outside) refl

  stored_byte :
      (i : ℕ)
      → i < cmd_value_length cmd
      → (stored f cmd cs t).storage (f.allocator.latest + i) ≡ f.host (address_of cs i)
  stored_byte i lt =
      let inside : in_range (f.allocator.latest + i) (f.allocator.latest + 0)
            (f.allocator.latest + cmd_value_length cmd)
          ≡ true =
        ground (arith, lt) in
      let same : f.allocator.latest + i - f.allocator.latest ≡ i = omega arith in
      rw
        (
          take_in_lem cs f.host f.storage f.allocator.latest (f.allocator.latest + i) tiles,
          inside,
          same,
        )
        refl

  view_other :
      (k : ℕ → ℕ)
      → same_bytes k cmd.key (cmd_key_length cmd) ≡ false
      → view t k (cmd_key_length cmd) ≡ view f.table k (cmd_key_length cmd)
  view_other k differs = added.reads k ∙ rw differs refl

  view_own :
      (k : ℕ → ℕ)
      → same_bytes k cmd.key (cmd_key_length cmd) ≡ true
      → view t k (cmd_key_length cmd) ≡ some (some (f.allocator.latest, cmd_value_length cmd))
  view_own k same = added.reads k ∙ rw same refl

  grown : (stored f cmd cs t).allocator.latest ≡ f.allocator.latest + cmd_value_length cmd
  unfolding append_only_allocate
  grown = omega (arith, room)

  -- a key of the new table is the new one, or has the value that it had
  data Origin (k : ℕ → ℕ) (o l : ℕ) : Type 0 where
    new :
        same_bytes k cmd.key (cmd_key_length cmd) ≡ true
        → o ≡ f.allocator.latest
        → l ≡ cmd_value_length cmd
        → Origin k o l
    old :
        same_bytes k cmd.key (cmd_key_length cmd) ≡ false
        → view f.table k (cmd_key_length cmd) ≡ some (some (o, l))
        → Origin k o l

  origin : (k : ℕ → ℕ) (o l : ℕ) → view t k (cmd_key_length cmd) ≡ some (some (o, l)) → Origin k o l
  origin k o l v = elim (Bool-cases (same_bytes k cmd.key (cmd_key_length cmd))) [
    | inl same ↦
        let e = sym (view_own k same) ∙ v in new same (ground (arith, e)) (ground (arith, e))
    | inr differs ↦ old differs (sym (view_other k differs) ∙ v)
  ]

  apart' :
      (k j : ℕ → ℕ) (o l o' l' : ℕ)
      → same_bytes k j (cmd_key_length cmd) ≡ false
      → Origin k o l
      → Origin j o' l'
      → (o + l ≤ o') ⊎ (o' + l' ≤ o)
  apart' k j o l o' l' differs (new own at len) (new own' at' len') = absurd (
      ground (
        arith,
        differs,
        same_bytes_congr k cmd.key j (cmd_key_length cmd) own,
        same_bytes_comm cmd.key j (cmd_key_length cmd),
        own',
      ))
  apart' k j o l o' l' differs (new own at len) (old _ v') =
      inr (omega (arith, at, s.placed j o' l' v'))
  apart' k j o l o' l' differs (old _ v) (new own' at' len') =
      inl (omega (arith, at', s.placed k o l v))
  apart' k j o l o' l' differs (old _ v) (old _ v') = s.apart k j o l o' l' differs v v'

  placed' : (k : ℕ → ℕ) (o l : ℕ) → Origin k o l → o + l ≤ (stored f cmd cs t).allocator.latest
  placed' k o l (new _ at len) = omega (arith, at, len, grown)
  placed' k o l (old _ v) = omega (arith, s.placed k o l v, grown)

  pub stored-Extends :
      Extends f
        (stored f cmd cs t)
        (cmd_key_length cmd)
        cmd.key
        (cmd_value_length cmd)
        (λ i. f.host (address_of cs i))
  stored-Extends = record {
    store = record {
      chained = added.chained;
      placed = λ k o l v. placed' k o l (origin k o l v);
      apart = λ k j o l o' l' differs v v'.
          apart' k j o l o' l' differs (origin k o l v) (origin j o' l' v');
    };
    own = λ k same. (f.allocator.latest, view_own k same, stored_byte);
    others = λ k l b differs (o, v, bytes). (
      o,
      view_other k differs ∙ v,
      λ i lt. below_kept (o + i) (let p = s.placed k o l v in omega (arith, p, lt)) ∙ bytes i lt,
    );
    lacking = λ k differs v. view_other k differs ∙ v;
  }
