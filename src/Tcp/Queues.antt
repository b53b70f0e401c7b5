-- ===== src/Tcp/Queues.antt =====
-- pico_enqueue_segment of modules/pico_tcp.c on the list of segments that a queue has.
use picotcp.Base.{
  ℕ, ◌+◌, ◌<◌, ◌≤◌, ◌≡◌, ◌≢◌, refl, sym, ap, ◌∙◌, Bool, true, false, none, List, arith, ◌⊎◌, inl,
  inr, ltb, u32, ℤ, pos, negsuc, Bool-cases, ◌==◌,
}
use picotcp.Tree.{Color, Tree, Inserted, done, exists, no_memory, keys, insert}
use picotcp.Tree.Order.{search_key, insert_key, insert_list}
use picotcp.Tree.Refine.{insert_list_cases}
use picotcp.Tcp.{
  Kind, TcpQueue, segment_compare, enqueue_inserted, do_enqueue_segment, enqueue_segment,
}
use picotcp.Tcp.Order.{by_offset, Here}
use picotcp.Tcp.Segments.{Filled, Holds, tree_insert, same_keys, counted_in-Holds}

module _ {ℓ} {A : Type ℓ} (k : Kind A) (base : ℕ) where
  -- The ways in which an enqueueing ends, with the queue and the number that it answers.
  abbrev pub Refused : TcpQueue A → A → List A → Bool → TcpQueue A → Type ℓ
  Refused q a xs alloc q' =
      Holds k base q' xs
      × ((q.max_size < q.size + k.measure a)
          ⊎ ((alloc ≡ false) ⊎ (search_key (by_offset k base) a xs ≢ none)))

  abbrev pub Enqueued : TcpQueue A → A → List A → Bool → TcpQueue A → Type ℓ
  Enqueued q a xs alloc q' =
      Holds k base q' (insert_key (by_offset k base) a xs)
      × (q.size + k.measure a ≤ q.max_size)
      × (alloc ≡ true)
      × (search_key (by_offset k base) a xs ≡ none)

  -- The result of an enqueueing.
  abbrev Enqueueing : TcpQueue A → A → List A → Bool → TcpQueue A × ℤ → Type ℓ
  Enqueueing q a xs alloc (q', r) =
      ((r ≡ negsuc 0) × (k.measure a ≡ 0) × (q' ≡ q))
      ⊎ (((r ≡ pos 0) × Refused q a xs alloc q')
          ⊎ ((r ≡ pos (k.measure a)) × (0 < k.measure a) × Enqueued q a xs alloc q'))

  enqueue_inserted-Holds :
      (l : base < 4294967296) (q : TcpQueue A) (a : A) (xs : List A) (alloc : Bool) (t : Tree A)
      (lc : Color) (told : Inserted A)
      → Holds k base q xs
      → Here k base a
      → Filled k base a
      → q.size + k.measure a ≤ q.max_size
      → (keys t, told) ≡ insert_list (by_offset k base) a alloc xs
      → Enqueueing q a xs alloc (enqueue_inserted k (k.measure a) q (t, lc, told))
  unfolding enqueue_inserted
  enqueue_inserted-Holds l q a xs alloc t lc told v w f m e =
      let e0 = ap (λ (r : List A × Inserted A). r.0) e in
      let e1 = ap (λ (r : List A × Inserted A). r.1) e in
      elim (insert_list_cases (by_offset k base) a alloc xs) [
        | inl (c, d, n) ↦ refused told (e0 ∙ c) (λ h. d (sym e1 ∙ h)) (inr n)
        | inr (c, d, n, b) ↦ added told (e0 ∙ c) (e1 ∙ d) n b
      ]
    where
      refused :
          (told : Inserted A)
          → keys t ≡ xs
          → told ≢ done
          → ((q.max_size < q.size + k.measure a)
              ⊎ ((alloc ≡ false) ⊎ (search_key (by_offset k base) a xs ≢ none)))
          → Enqueueing q a xs alloc (enqueue_inserted k (k.measure a) q (t, lc, told))
      refused done c d n = absurd (d refl)
      refused (exists x) c d n = inr (inl (refl, (same_keys k base l q xs v t lc c, n)))
      refused no_memory c d n = inr (inl (refl, (same_keys k base l q xs v t lc c, n)))

      added :
          (told : Inserted A)
          → keys t ≡ insert_key (by_offset k base) a xs
          → told ≡ done
          → alloc ≡ true
          → search_key (by_offset k base) a xs ≡ none
          → Enqueueing q a xs alloc (enqueue_inserted k (k.measure a) q (t, lc, told))
      added done c d n b = inr (
          inr (
            ground (arith, f.1),
            f.0,
            (counted_in-Holds k base l q xs v t lc a c w f b m, m, n, b),
          ))
      added (exists x) c d n b = cc
      added no_memory c d n b = cc

  do_enqueue_segment-Enqueueing :
      (alloc : Bool) (q : TcpQueue A) (a : A) (xs : List A)
      → base < 4294967296
      → Holds k base q xs
      → Here k base a
      → Filled k base a
      → Enqueueing q a xs alloc (do_enqueue_segment k alloc q a (k.measure a))
  unfolding do_enqueue_segment
  do_enqueue_segment-Enqueueing alloc q a xs l v w f =
      elim (Bool-cases (ltb q.max_size (u32 (q.size + k.measure a)))) [
        | inl e ↦ rw e (inr (inl (refl, (v, inl (ground (arith, e, v.within, v.limited, f.1))))))
        | inr e ↦
            let (t, lc, told) = insert (segment_compare k) alloc q.leaf_color a q.pool in
            rw e (
              enqueue_inserted-Holds l q a xs alloc t lc told v w f
                (ground (arith, e, v.within, v.limited, f.1))
                (tree_insert k base l q xs v alloc a w))
      ]

  -- pico_enqueue_segment on a queue in order, of a segment of the window: it answers -1 for an empty
  -- one and changes nothing; 0, with the same segments, if the queue would be larger than its limit,
  -- has a segment with this number, or gets no memory; and otherwise the length, with the segment in
  -- its place.
  pub enqueue_segment_refines :
      (alloc : Bool) (q : TcpQueue A) (a : A) (xs : List A)
      → base < 4294967296
      → Holds k base q xs
      → Here k base a
      → k.measure a < 65536
      → let (q', r) = enqueue_segment k alloc q a in
        ((r ≡ negsuc 0) × (k.measure a ≡ 0) × (q' ≡ q))
        ⊎ (((r ≡ pos 0) × Refused q a xs alloc q')
            ⊎ ((r ≡ pos (k.measure a)) × (0 < k.measure a) × Enqueued q a xs alloc q'))
  unfolding enqueue_segment
  enqueue_segment_refines alloc q a xs l v w m = elim (Bool-cases (k.measure a == 0)) [
    | inl e ↦ rw e (inl (refl, ground (arith, e), refl))
    | inr e ↦ rw e (do_enqueue_segment-Enqueueing alloc q a xs l v w (ground (arith, e), m))
  ]
