-- ===== src/HashTable/Tests.antt =====
-- The hash table of src/throttle.c at a small size, with a comparison that stands for strcmp.
use solidircd.Base.{
  ◌≡◌, ◌↔◌, refl, Bool, true, false, [], ◌∷◌, ◌==◌, ◌&&◌, if◌then◌else◌, some, arith,
}
use solidircd.Base.Int.{ℤ, pos, negsuc}
use solidircd.HashTable.{
  HashTable, Ent, create_hash_table, hash_get_key_hash, hash_insert, hash_delete, hash_find,
  resize_hash_table, holds,
}
use solidircd.HashTable.Chain.{Compares, select, OnlyUnder}
use solidircd.HashTable.Runs.{
  Newest, taken_out, Reached, created, inserted, deleted, resized, hash_find-Reached,
}
use solidircd.Match.Compare.{Bytes}

unfoldable pub text_eq : Bytes → Bytes → Bool
text_eq [] [] = true
text_eq [] (y ∷ t) = false
text_eq (x ∷ s) [] = false
text_eq (x ∷ s) (y ∷ t) = x == y && text_eq s t

-- Equal texts give 0, others -1.
abbrev pub text_cmp : Bytes → Bytes → ℤ
text_cmp s t = if text_eq s t then pos 0 else negsuc 0

text_eq_iff : (s t : Bytes) → (text_eq s t ≡ true) ↔ (s ≡ t)
unfolding text_eq
text_eq_iff [] [] = (λ h. refl, λ h. refl)
text_eq_iff [] (y ∷ t) = (λ h. cc, λ h. cc)
text_eq_iff (x ∷ s) [] = (λ h. cc, λ h. cc)
text_eq_iff (x ∷ s) (y ∷ t) = ground (arith, text_eq_iff s t)

pub text_cmp_iff : Compares text_cmp
text_cmp_iff s t = ground (arith, text_eq_iff s t)

abbrev host_a : Bytes
host_a = b'a' ∷ []

abbrev host_b : Bytes
host_b = b'b' ∷ []

abbrev ent_a : Ent
ent_a = record { at = 10; key = host_a }

abbrev ent_b : Ent
ent_b = record { at = 20; key = host_b }

abbrev one_bucket : HashTable
one_bucket = create_hash_table 1 46 false

abbrev two : HashTable
two = hash_insert (hash_insert one_bucket ent_a) ent_b

a-OnlyUnder : OnlyUnder text_cmp text_cmp_iff 10 host_a (ent_b ∷ ent_a ∷ [])
unfolding select holds
a-OnlyUnder j h = ground (arith, text_cmp_iff host_a j, text_cmp_iff host_b j)

runs : Unit {0}
unfolding create_hash_table hash_get_key_hash hash_insert hash_delete hash_find resize_hash_table
    text_eq
runs = tt

-- 0xe9 is negative as a signed `char`: 33 * 0 + 2^32 - 23.
hash_signed : hash_get_key_hash (create_hash_table 1_000_000 46 false) (0xe9 ∷ []) ≡ 967_273
unfolding runs
hash_signed = refl

find_b : hash_find text_cmp two host_b ≡ some ent_b
unfolding runs
find_b = refl

find_after_resize : hash_find text_cmp (resize_hash_table two 5) host_a ≡ some ent_a
unfolding runs
find_after_resize = refl

two-Reached : Reached text_cmp text_cmp_iff two (ent_b ∷ ent_a ∷ [])
two-Reached = inserted ent_b (inserted ent_a (created 1 46 false (omega arith)))

-- The first host is gone again, and the table is resized.
abbrev shrunk : HashTable
shrunk = resize_hash_table (hash_delete two ent_a).1 5

shrunk-Reached : Reached text_cmp text_cmp_iff shrunk (ent_b ∷ [])
unfolding taken_out select
shrunk-Reached =
    resized 5 (omega arith) (λ j. ground (arith, text_cmp_iff host_b j))
      (deleted ent_a a-OnlyUnder two-Reached)

hash_find-Reached_example : Newest host_a (ent_b ∷ []) (hash_find text_cmp shrunk host_a)
hash_find-Reached_example =
    hash_find-Reached text_cmp text_cmp_iff shrunk (ent_b ∷ []) host_a shrunk-Reached
