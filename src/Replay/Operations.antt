-- ===== src/Replay/Operations.antt =====
-- Each operation of the buffer against the queue that it stands for, and any sequence of them.
use adaptivemsg_go.Prelude.{
  ==_iff, All-append, Bool-cases, List, [], ap, arith, drop, drop_all, false, get_elem?,
  if◌then◌else◌, inl, inr, leb, length, length-map, le→leb, ltb, map, refl, some, sym, ℕ, ◌&&◌,
  ◌++◌, ◌+◌, ◌-◌, ◌/◌, ◌==◌, ◌∙◌, ◌∷◌, ◌≡◌,
}
use adaptivemsg_go.Replay.{
  Dropping, FrameRecord, OutboundFrame, ReplayBuffer, ack, compact, deref, drop_acked, seq_of,
  snapshot_from, sort_search, stage,
}
use adaptivemsg_go.Replay.Layout.{
  Entries, deref-map, drop-layout, drop-map, drop-older, layout, layout-append, length-layout,
  older, threshold,
}
use adaptivemsg_go.Replay.Queue.{
  Increasing-append, last_seq_of, newer, newer-All, newer-Increasing, record_of, total,
  total-append, total-newer-le, view_ack, view_snapshot, view_stage,
}
use adaptivemsg_go.Replay.Refine.{
  HasSize, IsValid, build-IsValid, drop_acked-layout, last_entry, length-frames, queue, taking,
  view,
}
use adaptivemsg_go.Replay.Search.{sort_search-eq}

view-eq :
    (b : ReplayBuffer) (q : List FrameRecord)
    → queue b ≡ q
    → view b ≡ record {
      header_len = b.header_len;
      max_bytes = b.max_bytes;
      last_acked = b.last_acked;
      records = q;
    }
view-eq b q e = λ i. record {
  header_len = b.header_len;
  max_bytes = b.max_bytes;
  last_acked = b.last_acked;
  records = e i;
}

-- A staged frame joins the array and the queue at the end.
module _ (b : ReplayBuffer) (frame : OutboundFrame) (seq : ℕ) (v : IsValid b) where
  abbrev r : FrameRecord
  r = record_of b.header_len frame seq

  abbrev grown : ReplayBuffer
  grown = record b {
    used_bytes = b.used_bytes + (b.header_len + length frame.payload);
    frames = b.frames ++ (some (record_of b.header_len frame seq) ∷ []);
  }

  grown-IsValid :
      (ltb 0 b.max_bytes && ltb b.max_bytes (b.used_bytes + (b.header_len + length frame.payload)))
        ≡ false
      → leb seq (last_seq_of b.last_acked (queue b)) ≡ false
      → IsValid grown × (queue grown ≡ queue b ++ (r ∷ []))
  grown-IsValid room above =
      build-IsValid grown (queue b ++ (r ∷ []))
        (ap (λ f. f ++ (some r ∷ [])) v.arranged ∙ layout-append b.head (queue b) r)
        (Increasing-append b.last_acked (queue b) r v.increasing (ground (arith, above)))
        (All-append (HasSize b.header_len) (queue b) (r ∷ []) v.sized (refl, tt))
        (omega (arith, total-append (queue b) (r ∷ []), v.used)) (λ h. ground (arith, room))

  -- `stage` answers as the queue does, keeps the invariant, and leaves the queue's new content.
  pub stage_refines :
      ((stage b frame seq).0 ≡ (view_stage (view b) frame seq).0)
      × (view (stage b frame seq).1 ≡ (view_stage (view b) frame seq).1)
      × IsValid (stage b frame seq).1
  unfolding stage view_stage
  stage_refines =
      elim (Bool-cases (
        ltb 0 b.max_bytes
        && ltb b.max_bytes (b.used_bytes + (b.header_len + length frame.payload)))) [
          | inl full ↦
              rw (← v.used, full)
                (elim (Bool-cases (leb (b.header_len + length frame.payload) b.max_bytes)) [
                  | inl fits ↦ rw fits (refl, refl, v)
                  | inr large ↦ rw large (refl, refl, v)
                ])
          | inr room ↦
              rw (← v.used, room)
                (elim (Bool-cases (leb seq b.last_acked)) [
                  | inl old ↦ rw old (refl, refl, v)
                  | inr new ↦
                      rw (new, last_entry b seq v new)
                        (elim (Bool-cases (leb seq (last_seq_of b.last_acked (queue b)))) [
                          | inl behind ↦ rw behind (refl, refl, v)
                          | inr above ↦ rw above (
                            refl,
                            view-eq grown _ (grown-IsValid room above).1,
                            (grown-IsValid room above).0,
                          )
                        ])
                ])
        ]

-- Compaction changes the place of the records, not the records.
compact-layout :
    (d h : ℕ) (q : List FrameRecord)
    → (compact (taking d h q)).frames ≡ layout (compact (taking d h q)).head q
unfolding compact
compact-layout d h q = elim (Bool-cases (h == length (layout h q))) [
  | inl all ↦ rw all (empty q (omega (arith, (==_iff _ _).0 all, length-layout h q)))
  | inr some_left ↦ rw some_left (elim (Bool-cases (ltb (length (layout h q) / 2) h)) [
    | inl move ↦ rw move (drop-layout h q)
    | inr stay ↦ rw stay refl
  ])
]
  where
    empty : (q : List FrameRecord) → length q ≡ 0 → [] ≡ map some q
    empty [] e = refl
    empty (x ∷ q) e = absurd (omega (arith, e))

module _ (b : ReplayBuffer) (last_seq : ℕ) (v : IsValid b) where
  abbrev acked : Dropping → ReplayBuffer
  acked d = record b {
    last_acked = last_seq;
    used_bytes = b.used_bytes - d.dropped;
    frames = (compact d).frames;
    head = (compact d).head;
  }

  abbrev left : List FrameRecord
  left = newer last_seq (queue b)

  abbrev after : Dropping
  after = taking (0 + (total (queue b) - total left)) (b.head + older last_seq (queue b)) left

  loop :
      drop_acked
        (length b.frames - b.head)
        last_seq
        (record { dropped = 0; frames = b.frames; head = b.head })
      ≡ after
  loop =
      ap
        (λ (n : ℕ).
          drop_acked n last_seq (record { dropped = 0; frames = b.frames; head = b.head }))
        (omega (arith, length-frames b v))
      ∙ ap
          (λ f.
            drop_acked (length (queue b)) last_seq
              (record { dropped = 0; frames = f; head = b.head }))
          v.arranged
      ∙ drop_acked-layout (queue b) last_seq b.last_acked b.head 0 v.increasing

  acked-IsValid : IsValid (acked after) × (queue (acked after) ≡ left)
  acked-IsValid =
      build-IsValid (acked after) left (compact-layout _ _ left)
        (newer-Increasing last_seq b.last_acked (queue b) v.increasing)
        (newer-All (HasSize b.header_len) last_seq (queue b) v.sized)
        (omega (arith, v.used, total-newer-le last_seq (queue b))) (λ h. omega (arith, v.bounded h))

  -- `ack` frees and keeps what the queue does, and keeps the invariant.
  pub ack_refines :
      ((ack b last_seq).0 ≡ (view_ack (view b) last_seq).0)
      × (view (ack b last_seq).1 ≡ (view_ack (view b) last_seq).1)
      × IsValid (ack b last_seq).1
  unfolding ack view_ack
  ack_refines = elim (Bool-cases (last_seq == 0)) [
    | inl none_yet ↦
        rw (none_yet, le→leb last_seq b.last_acked (omega (arith, (==_iff last_seq 0).0 none_yet)))
          (refl, refl, v)
    | inr some_acked ↦ rw some_acked (elim (Bool-cases (leb last_seq b.last_acked)) [
      | inl old ↦ rw old (refl, refl, v)
      | inr new ↦
          rw (new, loop) (omega arith, view-eq (acked after) left acked-IsValid.1, acked-IsValid.0)
    ])
  ]

  -- `snapshot_from` returns the records of the queue behind `last_seq`, in order.
  pub snapshot_refines : snapshot_from b last_seq ≡ view_snapshot (view b) last_seq
  unfolding snapshot_from view_snapshot
  snapshot_refines =
      ap picked entries
      ∙ ap (cut (map some q)) found
      ∙ elim (Bool-cases (older last_seq q == length (map some q))) [
        | inl all ↦ rw all (
            sym (
              sym (drop-older last_seq b.last_acked q v.increasing)
              ∙ ap (λ n. drop n q) ((==_iff _ _).0 all ∙ length-map {0, 0} {A = FrameRecord} some q)
              ∙ drop_all q))
        | inr some_left ↦ rw some_left (
            ap deref (drop-map (older last_seq q) q)
            ∙ deref-map _
            ∙ drop-older last_seq b.last_acked q v.increasing)
      ]
    where
      q : List FrameRecord
      q = queue b

      cut : Entries → ℕ → List FrameRecord
      cut e start = if start == length e then [] else deref (drop start e)

      picked : Entries → List FrameRecord
      picked e = cut e (sort_search (length e) (λ i. ltb last_seq (seq_of (get_elem? e i))))

      entries : drop b.head b.frames ≡ map some q
      entries = ap (drop b.head) v.arranged ∙ drop-layout b.head q

      found :
          sort_search (length (map some q)) (λ i. ltb last_seq (seq_of (get_elem? (map some q) i)))
          ≡ older last_seq q
      found =
          sort_search-eq (length (map some q)) (older last_seq q) _
            (omega (arith, length-map {0, 0} {A = FrameRecord} some q))
            (λ k h.
              threshold last_seq b.last_acked q k v.increasing
                (omega (arith, length-map {0, 0} {A = FrameRecord} some q)))
