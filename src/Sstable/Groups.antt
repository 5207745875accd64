-- ===== src/Sstable/Groups.antt =====
-- The blocks that the writer makes of the entries: what the file and the index are made of.
use helixdb.Prelude.{
  ℕ, ◌+◌, ◌≡◌, refl, sym, ap, ◌∙◌, false, List, [], ◌∷◌, ◌++◌, length, length-append, ltb, arith,
  All, All-append, Bool-cases, inl, inr,
}
use mathlib.Core.Path.{ap₂}
use mathlib.Core.List.{append_assoc, append-nil}
use native.Mathlib.Nat.{add-zero, zero-add, add_assoc}
use helixdb.Prelude.Bytes.{Bytes}
use helixdb.Sstable.Format.{Entry, BlockIndexEntry, encode_block}
use helixdb.Sstable.Writer.{
  Progress, start, first_key_of, last_key_of, is_empty, entry_bytes, close_block, push_entry,
  add_entry, add_all, close_last,
}

abbrev pub Group : Type 0
Group = List Entry

abbrev pub concat : List Group → List Entry
concat [] = []
concat (g ∷ gs) = g ++ concat gs

abbrev pub IsFull : Group → Type 0
IsFull g = is_empty g ≡ false

concat-snoc : (gs : List Group) (g : Group) → concat (gs ++ g ∷ []) ≡ concat gs ++ g
concat-snoc [] g = append-nil g
concat-snoc (h ∷ gs) g = ap (λ l. h ++ l) (concat-snoc gs g) ∙ sym (append_assoc h (concat gs) g)

module _ (crc : Bytes → ℕ) where
  abbrev pub data_of : List Group → Bytes
  data_of [] = []
  data_of (g ∷ gs) = encode_block crc g ++ data_of gs

  abbrev pub index_entry : ℕ → Group → BlockIndexEntry
  index_entry offset g = record {
    first_key = first_key_of g;
    last_key = last_key_of g;
    offset = offset;
    length_of = length (encode_block crc g);
  }

  abbrev pub index_from : ℕ → List Group → List BlockIndexEntry
  index_from offset [] = []
  index_from offset (g ∷ gs) =
      index_entry offset g ∷ index_from (offset + length (encode_block crc g)) gs

  data_of-snoc :
      (gs : List Group) (g : Group) → data_of (gs ++ g ∷ []) ≡ data_of gs ++ encode_block crc g
  data_of-snoc [] g = append-nil (encode_block crc g)
  data_of-snoc (h ∷ gs) g =
      ap (λ l. encode_block crc h ++ l) (data_of-snoc gs g)
      ∙ sym (append_assoc (encode_block crc h) (data_of gs) (encode_block crc g))

  index_from-snoc :
      (offset : ℕ) (gs : List Group) (g : Group)
      → index_from offset (gs ++ g ∷ [])
        ≡ index_from offset gs ++ index_entry (offset + length (data_of gs)) g ∷ []
  index_from-snoc offset [] g = rw (add-zero offset)
  index_from-snoc offset (h ∷ gs) g =
      let b = encode_block crc h in
      rw (length-append b (data_of gs), sym (add_assoc offset (length b) (length (data_of gs))))
        (ap (λ l. index_entry offset h ∷ l) (index_from-snoc (offset + length b) gs g))

  -- The writer has made blocks of `groups`, and `done` are the entries that it has seen.
  pub record Wrote (p : Progress) (done : List Entry) : Type 0 where
    pub groups : List Group
    pub blocks_are : p.blocks ≡ index_from 0 groups
    pub file_is : p.file ≡ data_of groups
    pub offset_is : p.offset ≡ length (data_of groups)
    pub full : All IsFull groups
    pub done_is : done ≡ concat groups ++ p.block_entries

  pub Wrote-start : Wrote start []
  Wrote-start = record {
    groups = [];
    blocks_are = refl;
    file_is = refl;
    offset_is = refl;
    full = tt;
    done_is = refl;
  }

  pub close_block-Wrote :
      (p : Progress) (done : List Entry)
      → IsFull p.block_entries
      → Wrote p done
      → Wrote (close_block crc p) done
  unfolding close_block
  close_block-Wrote p done f w = record {
    groups = w.groups ++ p.block_entries ∷ [];
    blocks_are =
        ap₂ (λ bs o. bs ++ index_entry o p.block_entries ∷ []) w.blocks_are
          (w.offset_is ∙ sym (zero-add (length (data_of w.groups))))
        ∙ sym (index_from-snoc 0 w.groups p.block_entries);
    file_is =
        ap (λ b. b ++ encode_block crc p.block_entries) w.file_is
        ∙ sym (data_of-snoc w.groups p.block_entries);
    offset_is = omega (
      arith,
      w.offset_is,
      ap length (data_of-snoc w.groups p.block_entries),
      length-append (data_of w.groups) (encode_block crc p.block_entries),
    );
    full = All-append IsFull w.groups (p.block_entries ∷ []) w.full (f, tt);
    done_is =
        w.done_is
        ∙ sym (
            append-nil (concat (w.groups ++ p.block_entries ∷ []))
            ∙ concat-snoc w.groups p.block_entries);
  }

  push_entry-Wrote :
      (e : Entry) (p : Progress) (done : List Entry)
      → Wrote p done
      → Wrote (push_entry e p) (done ++ e ∷ [])
  unfolding push_entry
  push_entry-Wrote e p done w = record {
    groups = w.groups;
    blocks_are = w.blocks_are;
    file_is = w.file_is;
    offset_is = w.offset_is;
    full = w.full;
    done_is =
        ap (λ l. l ++ e ∷ []) w.done_is ∙ append_assoc (concat w.groups) p.block_entries (e ∷ []);
  }

  add_entry-Wrote :
      (n : ℕ) (p : Progress) (e : Entry) (done : List Entry)
      → Wrote p done
      → Wrote (add_entry crc n p e) (done ++ e ∷ [])
  unfolding add_entry
  add_entry-Wrote n p e done w = elim (Bool-cases (is_empty p.block_entries)) [
    | inl fresh ↦ rw fresh (push_entry-Wrote e p done w)
    | inr f ↦ elim (Bool-cases (ltb n (p.current_bytes + entry_bytes e))) [
      | inl over ↦
          rw (f, over) (push_entry-Wrote e (close_block crc p) done (close_block-Wrote p done f w))
      | inr within ↦ rw (f, within) (push_entry-Wrote e p done w)
    ]
  ]

  pub add_all-Wrote :
      (n : ℕ) (p : Progress) (es done : List Entry)
      → Wrote p done
      → Wrote (add_all crc n p es) (done ++ es)
  unfolding add_all
  add_all-Wrote n p [] done w = rw append-nil w
  add_all-Wrote n p (e ∷ es) done w =
      rw (sym (append_assoc done (e ∷ []) es))
        (add_all-Wrote n (add_entry crc n p e) es (done ++ e ∷ []) (add_entry-Wrote n p e done w))

  -- Nothing is left over when the last block is closed.
  pub close_last-Wrote :
      (p : Progress) (done : List Entry)
      → Wrote p done
      → Wrote (close_last crc p) done × ((close_last crc p).block_entries ≡ [])
  unfolding close_last close_block
  close_last-Wrote p done w = elim (Bool-cases (is_empty p.block_entries)) [
    | inl fresh ↦ rw fresh (w, ground (arith, fresh))
    | inr f ↦ rw f (close_block-Wrote p done f w, refl)
  ]
