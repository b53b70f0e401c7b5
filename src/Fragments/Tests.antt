-- ===== src/Fragments/Tests.antt =====
-- Runs of the reassembly of modules/pico_fragments.c, and instances of the theorems.
use picotcp.Base.{
  ℕ, ◌+◌, ◌≤◌, ◌++◌, ◌≡◌, ◌↔◌, inl, inr, refl, true, false, List, [], ◌∷◌, arith, length,
  length-append, replicate, length-replicate,
}
use picotcp.Tree.{black, leaf, node, keys}
use picotcp.Tree.Members.{In}
use picotcp.Tree.Walk.{first-keys}
use picotcp.Fragments.{
  ipv4, Fragment, Full, Answers, Reassembly, get_offset, get_more_flag, get_header_length, joined,
  process_frag,
}
use picotcp.Fragments.Emptied.{received_of}
use picotcp.Fragments.Delivery.{arrivals, delivered_once}
use picotcp.Fragments.Faults.{new_datagram_lost}

abbrev memory : Answers
memory = record {
  copies = true;
  node_alloc = true;
  new_timer = 7;
  allocs = true;
  receive_fails = λ x p. false;
}

-- Sixteen bytes in two fragments, and the first fragment of another datagram.
abbrev front : Fragment
front = record { src = 1; dst = 2; id = 5; frag = 8192; transport = replicate 8 3 }

abbrev rear : Fragment
rear = record { src = 1; dst = 2; id = 5; frag = 1; transport = replicate 8 4 }

abbrev other : Fragment
other = record { src = 1; dst = 2; id = 6; frag = 8192; transport = replicate 8 9 }

abbrev idle : Reassembly
idle = record { fragments = leaf; leaf_color = black; cur_frag_id = 0; timer = 0 }

abbrev half : Reassembly
half = record {
  fragments = node black rear leaf leaf;
  leaf_color = black;
  cur_frag_id = 5;
  timer = 7;
}

same_members : (x : Fragment) → In x (rear ∷ rear ∷ front ∷ []) ↔ In x (front ∷ rear ∷ [])
same_members x = (there, back)
  where
    there : In x (rear ∷ rear ∷ front ∷ []) → In x (front ∷ rear ∷ [])
    there (inl e) = inr (inl e)
    there (inr (inl e)) = inr (inl e)
    there (inr (inr (inl e))) = inl e
    there (inr (inr (inr h))) = absurd h

    back : In x (front ∷ rear ∷ []) → In x (rear ∷ rear ∷ front ∷ [])
    back (inl e) = inr (inr (inl e))
    back (inr (inl e)) = inl e
    back (inr (inr h)) = absurd h

delivered_once_example :
    (x : Full) × (received_of (arrivals ipv4 memory 17 idle (rear ∷ rear ∷ front ∷ [])).1 ≡ x ∷ [])
    × (x.first_fragment ≡ front)
    × (x.written ≡ joined (front ∷ rear ∷ []))
    × (x.buffer_len ≡ get_header_length ipv4 + length x.written)
    × (x.full_len ≡ length x.written)
unfolding get_offset get_more_flag
delivered_once_example =
    delivered_once ipv4 memory 17 front (rear ∷ []) (rear ∷ rear ∷ front ∷ []) idle
      ((refl, refl, omega arith, (refl, refl))) ((refl, refl, refl, (refl, refl, refl, tt)))
      (omega arith) (refl, refl, refl) refl (omega arith) same_members (omega arith)

new_datagram_lost_example :
    let (st', es) = process_frag ipv4 memory 17 half other in
    (keys st'.fragments ≡ []) × (st'.cur_frag_id ≡ 0) × (st'.timer ≡ 7) × (received_of es ≡ [])
unfolding get_offset
new_datagram_lost_example =
    new_datagram_lost memory 17 half other rear (tt, tt) (first-keys half.fragments) (omega arith)
      refl

-- Two fragments of 32768 bytes.
sized : (n : ℕ) → (xs : List ℕ) × (length xs ≡ n)
sized n = (replicate n 0, length-replicate n 0)

abbrev large : List ℕ
large = (sized 32768).0

abbrev front_half : Fragment
front_half = record front { transport = large }

abbrev rear_half : Fragment
rear_half = record rear { frag = 4096; transport = large }

large_total : 65536 ≤ get_header_length ipv4 + length (joined (front_half ∷ rear_half ∷ []))
large_total =
    omega (arith, length-append large (large ++ []), length-append large [], (sized 32768).1)
