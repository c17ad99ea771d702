-- ===== src/Throttle/Steps.antt =====
-- The four changes that the throttle code of src/throttle.c makes to its table: a record comes in,
-- is written, goes, or the hash table is resized. Each keeps the table valid.
use solidircd.Base.{
  ℕ, ◌+◌, ◌<◌, ◌≡◌, refl, sym, ◌∙◌, false, List, [], ◌∷◌, if◌then◌else◌, none, some, arith,
  Bool-cases, inl, inr, length,
}
use solidircd.Base.Int.{ℤ}
use solidircd.HashTable.{find_in, remove}
use solidircd.HashTable.Chain.{Compares, same_key, same_key_iff}
use solidircd.HashTable.Models.{create-Models, hash_insert-Models, hash_delete-Models}
use solidircd.HashTable.Resize.{resize-Models}
use solidircd.Match.Compare.{Bytes}
use solidircd.Throttle.{
  Throttle, Throttles, ent_of, deref, store, unlink, add_throttle, drop_throttle, throttle_init,
  throttle_resize, throttle_hashsize, hostiplen,
}
use solidircd.Throttle.Apart.{IsApart, IsApart-AtMostOnce, IsApart-OnlyUnder, remove-IsApart}
use solidircd.Throttle.Valid.{
  entries, view, IsValid, find_in-view, deref-holds, holds-deref, deref-view, view-addr,
  entries-store, length-store,
}

entries-unlink : (p : ℕ) (l : List Throttle) → entries (unlink p l) ≡ remove p (entries l)
unfolding unlink remove
entries-unlink p [] = refl
entries-unlink p (tp ∷ l) = ground (arith, entries-unlink p l)

length-unlink :
    (p : ℕ) (l : List Throttle) (tp : Throttle)
    → deref p l ≡ some tp
    → length (unlink p l) + 1 ≡ length l
unfolding unlink deref
length-unlink p [] tp h = cc
length-unlink p (x ∷ l) tp h = ground (arith, length-unlink p l tp)

module _ (cmp : Bytes → Bytes → ℤ) (cmp_iff : Compares cmp) where
  pub view_congr :
      (a b : Bytes) (l : List Throttle) → a ≡ b → view cmp cmp_iff l a ≡ view cmp cmp_iff l b
  view_congr a b l e = rw e

  pub view-unlink :
      (l : List Throttle) (tp : Throttle) (host k : Bytes)
      → IsApart cmp cmp_iff (entries l)
      → view cmp cmp_iff l host ≡ some tp
      → view cmp cmp_iff (unlink tp.at l) k
        ≡ (if same_key cmp cmp_iff host k then none else view cmp cmp_iff l k)
  unfolding view unlink
  view-unlink [] tp host k apart h = cc
  view-unlink (x ∷ l) tp host k apart h = elim (Bool-cases (same_key cmp cmp_iff x.addr host)) [
    | inl same ↦ ground (
      arith,
      find_in-view cmp cmp_iff x.addr l,
      view_congr x.addr k l,
      same_key_iff cmp cmp_iff x.addr host,
      same_key_iff cmp cmp_iff x.addr k,
      same_key_iff cmp cmp_iff host k,
    )
    | inr other ↦
        let tail : view cmp cmp_iff l host ≡ some tp = ground arith in
        ground (
          arith,
          view-unlink l tp host k apart.2 tail,
          deref-view cmp cmp_iff host l tp apart.2 tail,
          holds-deref cmp cmp_iff x.at l apart.0,
          same_key_iff cmp cmp_iff x.addr host,
          same_key_iff cmp cmp_iff x.addr k,
          same_key_iff cmp cmp_iff host k,
        )
  ]

  -- A valid table stays valid when a record comes in whose address and host are new, and then has
  -- this record for its host.
  pub add-IsValid :
      (st : Throttles) (tp : Throttle)
      → IsValid cmp cmp_iff st
      → deref tp.at st.list ≡ none
      → view cmp cmp_iff st.list tp.addr ≡ none
      → IsValid cmp cmp_iff (add_throttle tp st)
  unfolding add_throttle
  add-IsValid st tp v fresh new = record {
    models = hash_insert-Models cmp cmp_iff st.hash (entries st.list) (ent_of tp) v.models;
    apart = (
      deref-holds cmp cmp_iff tp.at st.list fresh,
      ground (arith, find_in-view cmp cmp_iff tp.addr st.list),
      v.apart,
    );
    counted = ground arith;
  }

  pub store-IsValid :
      (st : Throttles) (new old : Throttle)
      → IsValid cmp cmp_iff st
      → deref new.at st.list ≡ some old
      → old.addr ≡ new.addr
      → IsValid cmp cmp_iff (record st { list = store new st.list })
  store-IsValid st new old v h e =
      let same = entries-store cmp cmp_iff st.list new old h e in
      record {
        models = rw same v.models;
        apart = rw same v.apart;
        counted = v.counted ∙ sym (length-store cmp cmp_iff st.list new);
      }

  pub drop-IsValid :
      (st : Throttles) (tp : Throttle) (host : Bytes)
      → IsValid cmp cmp_iff st
      → view cmp cmp_iff st.list host ≡ some tp
      → IsValid cmp cmp_iff (drop_throttle tp st)
  unfolding drop_throttle
  drop-IsValid st tp host v h =
      let key = view-addr cmp cmp_iff host st.list tp h in
      let own : view cmp cmp_iff st.list tp.addr ≡ some tp =
        view_congr tp.addr host st.list key ∙ h in
      let listed : find_in cmp tp.addr (entries st.list) ≡ some (ent_of tp) =
        ground (arith, find_in-view cmp cmp_iff tp.addr st.list) in
      let only =
        IsApart-OnlyUnder cmp cmp_iff tp.addr (entries st.list) (ent_of tp) v.apart listed in
      let (_, gone) =
        hash_delete-Models cmp cmp_iff st.hash (entries st.list) (ent_of tp) v.models only in
      let alive = deref-view cmp cmp_iff tp.addr st.list tp v.apart own in
      record {
        models = rw (entries-unlink tp.at st.list) gone;
        apart =
            rw (entries-unlink tp.at st.list)
              (remove-IsApart cmp cmp_iff tp.at (entries st.list) v.apart);
        counted = omega (arith, length-unlink tp.at st.list tp alive, v.counted);
      }

  pub init-IsValid : IsValid cmp cmp_iff throttle_init
  unfolding throttle_init
  init-IsValid = record {
    models = create-Models cmp cmp_iff throttle_hashsize hostiplen false (omega arith);
    apart = tt;
    counted = refl;
  }

  -- `throttle_resize` of a valid table to a positive size leaves a valid table.
  pub resize-IsValid :
      (st : Throttles) (size : ℕ)
      → IsValid cmp cmp_iff st
      → 0 < size
      → IsValid cmp cmp_iff (throttle_resize size st)
  unfolding throttle_resize
  resize-IsValid st size v h = record {
    models =
        resize-Models cmp cmp_iff st.hash (entries st.list) size v.models
          (IsApart-AtMostOnce cmp cmp_iff (entries st.list) v.apart) h;
    apart = v.apart;
    counted = v.counted;
  }
