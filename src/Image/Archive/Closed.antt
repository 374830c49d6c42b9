-- ===== src/Image/Archive/Closed.antt =====
-- parseLocalArchive: what has been opened can be reached from the readers and the slots, in every
-- state of the loops.
use cvetool.Prelude.{
  ◌==◌, ==_iff, ==_refl, Bool-cases, Option-cases, length, In, In-append_left, In-append_right, ok,
  Result-cases, ℕ, suc, ◌+◌, ◌≤◌, ◌<◌, ◌≡◌, refl, sym, ap, ◌≢◌, inl, inr, Bool, true, false, Option,
  none, some, List, [], ◌∷◌, arith,
}
use cvetool.Text.{Str, str_eq, str_eq_iff, contains, not_In_of_contains}
use cvetool.Image.Archive.{
  Digest, BlobInfo, Header, temp, Source, section, Layer, Resource, handle, closer, layer_of, Calls,
  State, blob_path, is_gzip, is_tar, acquire_layer, acquire_temp, prepare_temp, unpack,
  layer_source, mark_seen, init_layer, match_layer, try_layer, layer_loop,
}
use cvetool.Image.Archive.Slots.{get_elem?, get_elem?_lt, After, After-cases}
use mathlib.Core.Path.{subst}

-- A resource that a deferred call closes: a file of `tarfs`, the file of a reader, or the layer of a
-- slot.
abbrev pub Held : List BlobInfo → State → Resource → Type 0
Held infos s (handle f) = In f s.handles
Held infos s (closer c) = In c s.readers
Held infos s (layer_of l) = (i : ℕ) × (i < length infos) × (s.layers i ≡ some l)

module _ (calls : Calls) (infos : List BlobInfo) where
  abbrev pub Slot : (ℕ → Option Layer) → List Str → Type 0
  Slot layers seen =
      (j : ℕ) (l : Layer)
      → layers j ≡ some l
      → (info : BlobInfo) × (get_elem? infos j ≡ some info)
        × (calls.parse_digest info.digest ≡ ok l.hash)
        × In (blob_path l.hash) seen

  pub record Inv (s : State) : Type 0 where
    pub count : s.layer_count ≡ length infos
    pub held : (r : Resource) → In r s.acquired → Held infos s r
    pub slot : Slot s.layers s.seen

  -- A part that adds to `seen` or to the readers.
  seen_Inv : (path : Str) (s : State) → Inv s → Inv (record s { seen = path ∷ s.seen })
  seen_Inv path s v = record {
    count = v.count;
    held = λ r i. held_of r (v.held r i);
    slot = λ j l e. let (info, g, d, k) = v.slot j l e in (info, g, d, inr k);
  }
    where
      held_of : (r : Resource) → Held infos s r → Held infos (record s { seen = path ∷ s.seen }) r
      held_of (handle f) h = h
      held_of (closer c) h = h
      held_of (layer_of l) h = h

  temp_Inv : (s : State) → Inv s → Inv (acquire_temp s).0
  temp_Inv s v = record { count = v.count; held = held_of; slot = v.slot }
    where
      kept : (r : Resource) → Held infos s r → Held infos (acquire_temp s).0 r
      kept (handle f) h = h
      kept (closer c) h = In-append_left c s.readers (temp s.temps ∷ []) h
      kept (layer_of l) h = h

      held_of : (r : Resource) → In r (acquire_temp s).0.acquired → Held infos (acquire_temp s).0 r
      held_of r (inl e) =
          subst (Held infos (acquire_temp s).0) e
            (In-append_right (temp s.temps) s.readers (temp s.temps ∷ []) (inl refl))
      held_of r (inr i) = kept r (v.held r i)

  -- The slot of a new layer was free.
  layer_Inv :
      (i : ℕ) (l : Layer) (info : BlobInfo) (s : State)
      → get_elem? infos i ≡ some info
      → calls.parse_digest info.digest ≡ ok l.hash
      → In (blob_path l.hash) s.seen
      → s.layers i ≡ none
      → Inv s
      → Inv (acquire_layer i l s).0
  layer_Inv i l info s g d k free v = record {
    count = v.count;
    held = held_of;
    slot = λ j y e. elim (Bool-cases (i == j)) [
      | inl q ↦ slot_of j y ((==_iff i j).0 q) (cc (rw q at e))
      | inr q ↦ v.slot j y (rw q at e)
    ];
  }
    where
      slot_of :
          (j : ℕ) (y : Layer)
          → i ≡ j
          → l ≡ y
          → (x : BlobInfo) × (get_elem? infos j ≡ some x)
            × (calls.parse_digest x.digest ≡ ok y.hash)
            × In (blob_path y.hash) s.seen
      slot_of j y p q = (
        info,
        subst (λ n. get_elem? infos n ≡ some info) p g,
        subst (λ z. calls.parse_digest info.digest ≡ ok z.hash) q d,
        subst (λ z. In (blob_path z.hash) s.seen) q k,
      )

      kept : (r : Resource) → Held infos s r → Held infos (acquire_layer i l s).0 r
      kept (handle f) h = h
      kept (closer c) h = h
      kept (layer_of y) (j, b, e) = (
        j,
        b,
        elim (Bool-cases (i == j)) [
          | inl q ↦ cc (free, e, ap s.layers ((==_iff i j).0 q))
          | inr q ↦ rw q e
        ],
      )

      held_of :
          (r : Resource)
          → In r (acquire_layer i l s).0.acquired
          → Held infos (acquire_layer i l s).0 r
      held_of r (inl e) =
          subst (Held infos (acquire_layer i l s).0) e
            (i, get_elem?_lt infos i info g, rw (==_refl i))
      held_of r (inr m) = kept r (v.held r m)

  -- What `match_layer` needs of the state after `mark_seen`: the blob's path is recorded, and no
  -- slot from `i` on holds a layer of that blob.
  pub record Ready (name : Str) (i : ℕ) (s : State) : Type 0 where
    pub inv : Inv s
    pub marked : In name s.seen
    pub fresh : (j : ℕ) (l : Layer) → i ≤ j → s.layers j ≡ some l → blob_path l.hash ≢ name

  -- The state between two rounds of the loop over the layers.
  pub record Between (name : Str) (i : ℕ) (matched : Bool) (s : State) : Type 0 where
    pub inv : Inv s
    pub ready : matched ≡ true → Ready name i s

  mark_seen-Ready :
      (name : Str) (i : ℕ) (matched : Bool) (s : State)
      → Between name i matched s
      → After Inv (λ u. Ready name i) (mark_seen calls matched name s)
  unfolding mark_seen
  mark_seen-Ready name i true s b = b.ready refl
  mark_seen-Ready name i false s b = elim (Bool-cases (contains s.seen name)) [
    | inl e ↦ rw e b.inv
    | inr e ↦ rw e record {
      inv = seen_Inv name s b.inv;
      marked = inl refl;
      fresh = λ j l k f p.
          let (info, g, d, m) = b.inv.slot j l f in
          not_In_of_contains s.seen name e (subst (λ z. In z s.seen) p m);
    }
  ]

  temp_Ready : (name : Str) (i : ℕ) (s : State) → Ready name i s → Ready name i (acquire_temp s).0
  temp_Ready name i s r = record { inv = temp_Inv s r.inv; marked = r.marked; fresh = r.fresh }

  layer_source-Ready :
      (name : Str) (i : ℕ) (media_type : Str) (ra : Source) (s : State)
      → Ready name i s
      → After Inv (λ source. Ready name i) (layer_source calls media_type ra s)
  unfolding layer_source
  layer_source-Ready name i media_type ra s r = elim (Bool-cases (is_gzip media_type)) [
    | inl e ↦ rw e (elim (Result-cases (prepare_temp calls ra s.temps)) [
      | inr (f, g) ↦ rw g r.inv
      | inl (u, g) ↦ rw g (elim (Result-cases (unpack calls s.temps)) [
        | inr (f, h) ↦ rw h (temp_Ready name i s r).inv
        | inl (t, h) ↦ rw h (temp_Ready name i s r)
      ])
    ])
    | inr e ↦ rw e (elim (Bool-cases (is_tar media_type)) [ inl f ↦ rw f r | inr f ↦ rw f r.inv ])
  ]

  slot_free :
      (i : ℕ) (ld : Digest) (info : BlobInfo) (s : State)
      → get_elem? infos i ≡ some info
      → calls.parse_digest info.digest ≡ ok ld
      → Ready (blob_path ld) i s
      → s.layers i ≡ none
  slot_free i ld info s g d r = elim (Option-cases (s.layers i)) [
    | inl e ↦ e
    | inr (y, e) ↦
        let (info', g', d', m) = r.inv.slot i y e in
        let same : info' ≡ info = cc (g, g') in
        let hash : y.hash ≡ ld = cc (d, d', ap (λ z. calls.parse_digest z.digest) same) in
        absurd (r.fresh i y (omega arith) e (ap blob_path hash))
  ]

  filled_Ready :
      (i : ℕ) (l : Layer) (info : BlobInfo) (s : State)
      → get_elem? infos i ≡ some info
      → calls.parse_digest info.digest ≡ ok l.hash
      → Ready (blob_path l.hash) i s
      → Ready (blob_path l.hash) (suc i) (acquire_layer i l s).0
  filled_Ready i l info s g d r = record {
    inv = layer_Inv i l info s g d r.marked (slot_free i l.hash info s g d r) r.inv;
    marked = r.marked;
    fresh = λ j y k e. elim (Bool-cases (i == j)) [
      | inl q ↦ absurd (omega (arith, k, (==_iff i j).0 q))
      | inr q ↦ r.fresh j y (omega (arith, k)) (rw q at e)
    ];
  }

  init_layer-Ready :
      (i : ℕ) (ld : Digest) (media_type : Str) (source : Source) (info : BlobInfo) (s : State)
      → get_elem? infos i ≡ some info
      → calls.parse_digest info.digest ≡ ok ld
      → Ready (blob_path ld) i s
      → After Inv (λ u. Ready (blob_path ld) (suc i)) (init_layer calls i ld media_type source s)
  unfolding init_layer
  init_layer-Ready i ld media_type source info s g d r =
      let l : Layer = record {
        number = s.inits;
        hash = ld;
        media_type = media_type;
        source = source;
      } in
      elim (Result-cases (calls.init l)) [
        | inr (f, e) ↦ rw e r.inv
        | inl (u, e) ↦ rw e (filled_Ready i l info s g d r)
      ]

  match_layer-Ready :
      (hdr : Header) (start i : ℕ) (l : BlobInfo) (ld : Digest) (matched : Bool) (s : State)
      → get_elem? infos i ≡ some l
      → calls.parse_digest l.digest ≡ ok ld
      → Between (blob_path ld) i matched s
      → After Inv (λ u. Ready (blob_path ld) (suc i)) (match_layer calls hdr start i l ld matched s)
  unfolding match_layer
  match_layer-Ready hdr start i l ld matched s g d b =
      let name = blob_path ld in
      elim (After-cases Inv (λ u. Ready name i) (mark_seen calls matched name s)
        (mark_seen-Ready name i matched s b)) [
          | inl (t, f, e, v) ↦ rw e v
          | inr (t, u, e, r) ↦
              rw e
                (elim (After-cases Inv (λ u. Ready name i)
                  (layer_source calls l.media_type (section start hdr.size) t)
                  (layer_source-Ready name i l.media_type (section start hdr.size) t r)) [
                    | inl (t', f, e', v) ↦ rw e' v
                    | inr (t', source, e', r') ↦
                        rw e' (init_layer-Ready i ld l.media_type source l t' g d r')
                  ])
        ]

  step_Between :
      (name : Str) (i : ℕ) (matched : Bool) (s : State)
      → Between name i matched s
      → Between name (suc i) matched s
  step_Between name i matched s b = record {
    inv = b.inv;
    ready = λ m.
        let r = b.ready m in
        record {
          inv = r.inv;
          marked = r.marked;
          fresh = λ j l k e. r.fresh j l (omega (arith, k)) e;
        };
  }

  try_layer-Between :
      (hdr : Header) (name : Str) (start i : ℕ) (l : BlobInfo) (matched : Bool) (s : State)
      → get_elem? infos i ≡ some l
      → Between name i matched s
      → After Inv (Between name (suc i)) (try_layer calls hdr name start i l matched s)
  unfolding try_layer
  try_layer-Between hdr name start i l matched s g b =
      elim (Result-cases (calls.parse_digest l.digest)) [
        | inr (f, e) ↦ rw e b.inv
        | inl (ld, e) ↦ rw e (elim (Bool-cases (str_eq name (blob_path ld))) [
          | inr q ↦ rw q (step_Between name i matched s b)
          | inl q ↦
              let same : name ≡ blob_path ld = (str_eq_iff name (blob_path ld)).0 q in
              rw q
                (elim (After-cases Inv (λ u. Ready (blob_path ld) (suc i))
                  (match_layer calls hdr start i l ld matched s)
                  (match_layer-Ready hdr start i l ld matched s g e
                    (subst (λ n. Between n i matched s) same b))) [
                      | inl (t, f, e', v) ↦ rw e' v
                      | inr (t, u, e', r) ↦ rw e' (
                          subst (λ n. Between n (suc i) true t) (sym same)
                            (record { inv = r.inv; ready = λ m. r }))
                    ])
        ])
      ]

  pub layer_loop-Inv :
      (hdr : Header) (name : Str) (start i : ℕ) (ls : List BlobInfo) (matched : Bool) (s : State)
      → ((k : ℕ) (l : BlobInfo) → get_elem? ls k ≡ some l → get_elem? infos (i + k) ≡ some l)
      → Between name i matched s
      → After Inv (λ u. Inv) (layer_loop calls hdr name start i ls matched s)
  unfolding layer_loop
  layer_loop-Inv hdr name start i [] matched s at b = b.inv
  layer_loop-Inv hdr name start i (l ∷ ls) matched s at b =
      elim (After-cases Inv (Between name (suc i)) (try_layer calls hdr name start i l matched s) (
        try_layer-Between hdr name start i l matched s
          (subst (λ n. get_elem? infos n ≡ some l) (omega arith) (at 0 l refl)) b)) [
            | inl (t, f, e, v) ↦ rw e v
            | inr (t, m, e, c) ↦ rw e (
                layer_loop-Inv hdr name start (suc i) ls m t
                  (λ k y h. subst (λ n. get_elem? infos n ≡ some y) (omega arith) (at (suc k) y h))
                  c)
          ]
