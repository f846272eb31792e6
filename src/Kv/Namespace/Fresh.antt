-- ===== src/Kv/Namespace/Fresh.antt =====
-- The initial dictionary of a key-value namespace.
use wild_cat.Common.{ℕ, ◌≤◌, ◌≡◌, refl, false, Option, none, some, ◌≢◌, sym, ◌∙◌, arith}
use wild_cat.Kv.Table.{key_size, is_used}
use wild_cat.Kv.Table.Chained.{IsChained}
use wild_cat.Kv.Table.Search.{false_apart}
use wild_cat.Kv.Table.Insert.{view, view-Locates}
use wild_cat.Kv.Allocator.{AppendOnly}
use wild_cat.Kv.State.{IterContext, append_only_ops}
use wild_cat.Kv.Io.Dictionary.{IsStore, Lacks}
use wild_cat.Kv.Namespace.{fresh_table, kv_init_namespace}

pub fresh_unused : (s : ℕ) → is_used fresh_table s ≡ false
fresh_unused s = refl

pub fresh-IsChained : (key_len : ℕ) → key_len ≤ key_size → IsChained fresh_table key_len
fresh-IsChained key_len short = record {
  short = short;
  rank = λ s. 0;
  positive = omega arith;
  narrow = omega arith;
  ranked = λ s lt used. absurd (false_apart used refl);
  follows = λ s lt used. absurd (false_apart used refl);
  unlinked = λ s lt free. refl;
  homes = λ s lt used. absurd (false_apart used refl);
  distinct = λ a b la lb used used' same. absurd (false_apart used refl);
}

pub fresh_view :
    (key : ℕ → ℕ) (key_len : ℕ) → key_len ≤ key_size → view fresh_table key key_len ≡ some none
fresh_view key key_len short =
    view-Locates fresh_table key key_len none (fresh-IsChained key_len short)
      (λ s lt used. absurd (false_apart used refl))

some_apart : {v : ℕ × ℕ} → some none ≢ some (some v)
some_apart e = cc

-- For keys of at most 18 bytes, a new namespace with the append-only allocator stands for the empty dictionary, whatever the
-- storage and the handles hold.
pub kv_init_namespace-IsStore :
    (a : AppendOnly) (handles : ℕ → Option IterContext) (storage_size : ℕ) (storage host : ℕ → ℕ)
    (key_len : ℕ)
    → key_len ≤ key_size
    → let f = kv_init_namespace append_only_ops a handles storage_size storage host in
      IsStore f key_len × ((key : ℕ → ℕ) → Lacks f key_len key)
unfolding kv_init_namespace
kv_init_namespace-IsStore a handles storage_size storage host key_len short = (
  record {
    chained = fresh-IsChained key_len short;
    placed = λ k o l v. absurd (some_apart (sym (fresh_view k key_len short) ∙ v));
    apart =
        λ k j o l o' l' differs v v'. absurd (some_apart (sym (fresh_view k key_len short) ∙ v));
  },
  λ key. fresh_view key key_len short,
)
