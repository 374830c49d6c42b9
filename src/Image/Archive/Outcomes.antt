-- ===== src/Image/Archive/Outcomes.antt =====
-- parseLocalArchive: whatever fails, the deferred function closes all that was opened, and a
-- success hands all of it to the caller.
use mathlib.Core.Path.{subst}
use cvetool.Prelude.{
  Bool-cases, Option-cases, length, In, In-append_left, In-append_right, In-map, Error, Result, err,
  ok, Result-cases, ok_injective, ℕ, zero, suc, ◌+◌, ◌<◌, ◌≡◌, refl, sym, ap, ◌∙◌, ◌≢◌, ◌⊎◌, inl,
  inr, false, Option, none, some, List, [], ◌∷◌, ◌++◌, map, arith,
}
use cvetool.Text.{clean}
use cvetool.Image.Archive.{
  Digest, BlobInfo, Header, Closer, archive, Layer, Resource, handle, closer, layer_of, Calls,
  State, bind, lift, layers_below, close_manifest_resources, is_local, start_state, read_entry,
  entry_loop, found, all_found, read_manifest, parse_body, deferred, parse_local_archive,
}
use cvetool.Image.Archive.Slots.{
  get_elem?, get_elem?_lt, In-layers_below, map-layers_below, After, After-cases,
}
use cvetool.Image.Archive.Closed.{Held, Inv, layer_loop-Inv}
use cvetool.Image.Archive.Handles.{started, IsStarted, read_manifest-KeepsStarted}

-- What the deferred calls close in a state, after an error.
abbrev pub closed_in : State → List Resource
closed_in s =
    map handle s.handles
    ++ (map layer_of (layers_below s.layer_count s.layers) ++ map closer s.readers)

-- After a success: a file of `tarfs` was closed; a reader and a layer are with the caller, and were
-- not closed.
abbrev pub IsAnswered : List Resource → List Layer → List Closer → Resource → Type 0
IsAnswered closed layers readers (handle f) = In (handle f) closed
IsAnswered closed layers readers (closer c) = In c readers × ¬ In (closer c) closed
IsAnswered closed layers readers (layer_of l) = In l layers × ¬ In (layer_of l) closed

no_closer : (c : Closer) (hs : List ℕ) → ¬ In (closer c) (map handle hs)
no_closer c [] i = i
no_closer c (f ∷ hs) (inl e) = cc e
no_closer c (f ∷ hs) (inr i) = no_closer c hs i

no_layer : (l : Layer) (hs : List ℕ) → ¬ In (layer_of l) (map handle hs)
no_layer l [] i = i
no_layer l (f ∷ hs) (inl e) = cc e
no_layer l (f ∷ hs) (inr i) = no_layer l hs i

module _ (calls : Calls) (infos : List BlobInfo) where
  read_entry-Inv :
      (entry : Result Header) (s : State)
      → Inv calls infos s
      → After (Inv calls infos) (λ u. Inv calls infos) (read_entry calls infos entry s)
  unfolding read_entry
  read_entry-Inv (err e) s v = v
  read_entry-Inv (ok hdr) s v = elim (Bool-cases (is_local (clean hdr.name))) [
    | inr e ↦ rw e v
    | inl e ↦ rw e (elim (Result-cases (calls.offset hdr)) [
      | inr (f, g) ↦ rw g v
      | inl (start, g) ↦ rw g (
          layer_loop-Inv calls infos hdr (clean hdr.name) start 0 infos false s
            (λ k l h. subst (λ n. get_elem? infos n ≡ some l) (omega arith) h)
            (record { inv = v; ready = λ m. cc (m) }))
    ])
  ]

  entry_loop-Inv :
      (entries : List (Result Header)) (s : State)
      → Inv calls infos s
      → After (Inv calls infos) (λ u. Inv calls infos) (entry_loop calls infos entries s)
  unfolding entry_loop
  entry_loop-Inv [] s v = v
  entry_loop-Inv (e ∷ es) s v =
      elim (After-cases (Inv calls infos) (λ u. Inv calls infos) (read_entry calls infos e s)
        (read_entry-Inv e s v)) [
          | inl (t, f, q, w) ↦ rw q w
          | inr (t, u, q, w) ↦ rw q (entry_loop-Inv es t w)
        ]

  found-ne-none :
      (o : Option Layer) (l : BlobInfo) {u : Unit {0}} → found calls o l ≡ ok u → o ≢ none
  unfolding found
  found-ne-none none l h = cc (h)
  found-ne-none (some y) l h = λ e. cc (e)

  -- The last loop leaves the state; after it, every slot of the manifest is filled.
  all_found_lem :
      (i : ℕ) (ls : List BlobInfo) (s : State)
      → After
          (λ t. t ≡ s)
          (λ u t. (t ≡ s) × ((k : ℕ) → k < length ls → s.layers (i + k) ≢ none))
          (all_found calls i ls s)
  unfolding all_found
  all_found_lem i [] s = (refl, λ k h. absurd (omega (arith, h)))
  all_found_lem i (l ∷ ls) s = elim (Result-cases (found calls (s.layers i) l)) [
    | inr (f, e) ↦ rw e refl
    | inl (u, e) ↦
        rw e
          (elim (After-cases (λ t. t ≡ s)
            (λ w t. (t ≡ s) × ((k : ℕ) → k < length ls → s.layers (suc i + k) ≢ none))
            (all_found calls (suc i) ls s) (all_found_lem (suc i) ls s)) [
              | inl (t, f, q, w) ↦ rw q w
              | inr (t, w, q, (same, rest)) ↦ rw q (same, λ k h. found_here s i l e rest k h)
            ])
  ]
    where
      found_here :
          (s : State) (i : ℕ) (l : BlobInfo) {u : Unit {0}} {n : ℕ}
          → found calls (s.layers i) l ≡ ok u
          → ((k : ℕ) → k < n → s.layers (suc i + k) ≢ none)
          → (k : ℕ) → k < suc n
          → s.layers (i + k) ≢ none
      found_here s i l e rest zero h q =
          found-ne-none (s.layers i) l e (subst (λ n. s.layers n ≡ none) (omega arith) q)
      found_here s i l e rest (suc k) h q =
          rest k (omega (arith, h)) (subst (λ n. s.layers n ≡ none) (omega arith) q)

  -- The readers, the slots and the files of `tarfs`, before the loop over the entries.
  handles-In : (f : ℕ) (hs : List ℕ) → In (handle f) (started hs).acquired → In f hs
  handles-In f [] (inl e) = cc e
  handles-In f [] (inr i) = absurd i
  handles-In f (g ∷ hs) (inl e) = inl (cc e)
  handles-In f (g ∷ hs) (inr i) = inr (handles-In f hs i)

  others-Held :
      (hs : List ℕ) (r : Resource)
      → In r (started hs).acquired
      → ((f : ℕ) × (r ≡ handle f)) ⊎ (r ≡ closer archive)
  others-Held [] r (inl e) = inr (sym e)
  others-Held [] r (inr i) = absurd i
  others-Held (g ∷ hs) r (inl e) = inl (g, sym e)
  others-Held (g ∷ hs) r (inr i) = others-Held hs r i

  start_Inv : (s : State) → IsStarted s → Inv calls infos (record s { layer_count = length infos })
  start_Inv s (hs, e) =
      subst (λ z. Inv calls infos (record z { layer_count = length infos })) (sym e) (of_handles hs)
    where
      of_handles :
          (hs : List ℕ) → Inv calls infos (record (started hs) { layer_count = length infos })
      of_handles hs = record {
        count = refl;
        held = λ r i. elim (others-Held hs r i) [
          | inl (f, e) ↦
              subst (Held infos (record (started hs) { layer_count = length infos })) (sym e)
                (handles-In f hs (subst (λ z. In z (started hs).acquired) e i))
          | inr e ↦
              subst (Held infos (record (started hs) { layer_count = length infos })) (sym e)
                (inl refl)
        ];
        slot = λ j l e. cc (e);
      }

  -- All that is held is closed after an error.
  closed_all : (s : State) (r : Resource) → Inv calls infos s → In r s.acquired → In r (closed_in s)
  closed_all s r v i = of_held r (v.held r i)
    where
      of_held : (r : Resource) → Held infos s r → In r (closed_in s)
      of_held (handle f) h =
          In-append_left (handle f) (map handle s.handles) _ (In-map handle f s.handles h)
      of_held (closer c) h = In-append_right (closer c) (map handle s.handles) _ (
          In-append_right (closer c) (map layer_of (layers_below s.layer_count s.layers))
            (map closer s.readers) (In-map closer c s.readers h))
      of_held (layer_of l) (j, b, e) = In-append_right (layer_of l) (map handle s.handles) _ (
          In-append_left (layer_of l) (map layer_of (layers_below s.layer_count s.layers))
            (map closer s.readers)
            (In-map layer_of l (layers_below s.layer_count s.layers)
              ((In-layers_below s.layer_count s.layers l).1 (j, omega (arith, b, v.count), e))))

  -- After a success the files of `tarfs` are closed, and the rest is with the caller.
  handed_over :
      (s : State) (r : Resource)
      → Inv calls infos s
      → In r s.acquired
      → IsAnswered (map handle s.handles) (layers_below s.layer_count s.layers) s.readers r
  handed_over s r v i = of_held r (v.held r i)
    where
      of_held :
          (r : Resource)
          → Held infos s r
          → IsAnswered (map handle s.handles) (layers_below s.layer_count s.layers) s.readers r
      of_held (handle f) h = In-map handle f s.handles h
      of_held (closer c) h = (h, no_closer c s.handles)
      of_held (layer_of l) (j, b, e) = (
        (In-layers_below s.layer_count s.layers l).1 (j, omega (arith, b, v.count), e),
        no_layer l s.handles,
      )

-- The state at the end of the body, in which the deferred function runs.
abbrev pub final_state : Calls → State
final_state calls = (parse_body calls start_state).0

abbrev AllClosed : State → Type 0
AllClosed s = (r : Resource) → In r s.acquired → In r (closed_in s)

abbrev Complete : Calls → Digest → State → Type 0
Complete calls md s =
    (infos : List BlobInfo) × ((read_manifest calls start_state).1 ≡ ok (md, infos))
    × Inv calls infos s
    × ((k : ℕ) → k < length infos → s.layers k ≢ none)

parse_body-Complete :
    (calls : Calls) → After AllClosed (Complete calls) (parse_body calls start_state)
unfolding parse_body layers_below
parse_body-Complete calls =
    elim (After-cases IsStarted (λ a. IsStarted) (read_manifest calls start_state)
      (read_manifest-KeepsStarted calls start_state ([], refl))) [
        | inl (s, e, q, (hs, same)) ↦ rw q (
            subst AllClosed (sym same) (λ r i.
              closed_all calls [] (started hs) r (start_Inv calls [] (started hs) (hs, refl)) i))
        | inr (s, (md, infos), q, opened) ↦
            rw q (loops calls md infos s (ap (λ p. p.1) q) (start_Inv calls infos s opened))
      ]
  where
    loops :
        (calls : Calls) (md : Digest) (infos : List BlobInfo) (s : State)
        → (read_manifest calls start_state).1 ≡ ok (md, infos)
        → Inv calls infos (record s { layer_count = length infos })
        → After AllClosed (Complete calls) (
            bind
              (entry_loop calls infos calls.entries)
              (λ v. bind (all_found calls 0 infos) (λ w. lift (ok md)))
              (record s { layer_count = length infos }))
    loops calls md infos s m start =
        elim (After-cases (Inv calls infos) (λ u. Inv calls infos)
          (entry_loop calls infos calls.entries (record s { layer_count = length infos }))
          (entry_loop-Inv calls infos calls.entries _ start)) [
            | inl (t, f, p, v) ↦ rw p (λ r i. closed_all calls infos t r v i)
            | inr (t, u, p, v) ↦
                rw p
                  (elim (After-cases (λ z. z ≡ t)
                    (λ w z. (z ≡ t) × ((k : ℕ) → k < length infos → t.layers (0 + k) ≢ none))
                    (all_found calls 0 infos t) (all_found_lem calls infos 0 infos t)) [
                      | inl (z, f, p', same) ↦ rw (p', same) (λ r i. closed_all calls infos t r v i)
                      | inr (z, w, p', (same, filled)) ↦
                          rw (p', same)
                            (
                              infos,
                              m,
                              v,
                              λ k h e. filled k h (subst (λ n. t.layers n ≡ none) (omega arith) e),
                            )
                    ])
          ]

-- If parseLocalArchive fails, each file that was opened, index.json and the manifest among them, and
-- each layer that was initialised is among those that were closed. If it succeeds, the files of
-- index.json and the manifest were closed, and each other file and each layer is handed to the
-- caller, in the manifest or in the closer, and was not closed.
pub parse_local_archive_closes :
    (calls : Calls)
    → ((e : Error)
        → (parse_local_archive calls).result ≡ err e
        → (r : Resource) → In r (final_state calls).acquired
        → In r (parse_local_archive calls).closed)
      × ((md : Digest) (layers : List Layer) (readers : List Closer)
          → (parse_local_archive calls).result ≡ ok (md, layers, readers)
          → (r : Resource) → In r (final_state calls).acquired
          → IsAnswered (parse_local_archive calls).closed layers readers r)
unfolding parse_local_archive deferred close_manifest_resources
parse_local_archive_closes calls =
    elim (After-cases AllClosed (Complete calls) (parse_body calls start_state)
      (parse_body-Complete calls)) [
        | inl (s, f, q, c) ↦
            let end : final_state calls ≡ s = ap (λ p. p.0) q in
            rw q
              (λ e h r i. c r (subst (λ z. In r z.acquired) end i), λ md layers readers h. cc (h))
        | inr (s, md, q, (infos, m, v, filled)) ↦
            let end : final_state calls ≡ s = ap (λ p. p.0) q in
            rw q (
              λ e h. cc (h),
              λ md' layers readers h r i.
                  let got : (md, layers_below s.layer_count s.layers, s.readers)
                      ≡ (md', layers, readers) =
                    ok_injective h in
                  subst (λ t. IsAnswered (map handle s.handles) t.1 t.2 r) got
                    (handed_over calls infos s r v (subst (λ z. In r z.acquired) end i)),
            )
      ]

slots_full :
    (calls : Calls) (infos : List BlobInfo) (s : State)
    → Inv calls infos s
    → ((k : ℕ) → k < length infos → s.layers k ≢ none)
    → (k : ℕ) (info : BlobInfo) → get_elem? infos k ≡ some info
    → (l : Layer) × (s.layers k ≡ some l) × (calls.parse_digest info.digest ≡ ok l.hash)
slots_full calls infos s v filled k info g = elim (Option-cases (s.layers k)) [
  | inl e ↦ absurd (filled k (get_elem?_lt infos k info g) e)
  | inr (l, e) ↦
      let (info', g', d, m) = v.slot k l e in
      let same : info' ≡ info = cc (g, g') in
      (l, e, subst (λ z. calls.parse_digest z.digest ≡ ok l.hash) same d)
]

-- If parseLocalArchive succeeds, index.json and the manifest were read, and the layers of the
-- result have, in order, the digests of the manifest's layers.
pub parse_local_archive_layers :
    (calls : Calls) (md : Digest) (layers : List Layer) (readers : List Closer)
    → (parse_local_archive calls).result ≡ ok (md, layers, readers)
    → (infos : List BlobInfo) × ((read_manifest calls start_state).1 ≡ ok (md, infos))
      × (map (λ info. calls.parse_digest info.digest) infos ≡ map (λ l. ok l.hash) layers)
unfolding parse_local_archive deferred
parse_local_archive_layers calls md layers readers h =
    elim (After-cases AllClosed (Complete calls) (parse_body calls start_state)
      (parse_body-Complete calls)) [
        | inl (s, f, q, c) ↦ cc (rw q at h)
        | inr (s, md', q, (infos, m, v, filled)) ↦
            let got : (md', layers_below s.layer_count s.layers, s.readers)
                ≡ (md, layers, readers) =
              ok_injective (rw q at h) in
            (
              infos,
              subst (λ z. (read_manifest calls start_state).1 ≡ ok (z, infos)) (ap (λ t. t.0) got)
                  m,
              map-layers_below (λ info. calls.parse_digest info.digest) infos s.layers
                    (slots_full calls infos s v filled)
                  ∙ ap (λ n. map (λ l. ok l.hash) (layers_below n s.layers)) (sym v.count)
                  ∙ ap (λ t. map (λ l. ok l.hash) t.1) got,
            )
      ]
