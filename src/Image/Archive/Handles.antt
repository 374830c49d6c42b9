-- ===== src/Image/Archive/Handles.antt =====
-- parseLocalArchive: the first part, which reads index.json and the manifest, opens nothing but these
-- files and defers the `Close` of each.
use cvetool.Prelude.{
  Result, err, ok, wrap, Result-cases, ℕ, String, ◌≡◌, ap, inl, inr, List, [], ◌∷◌, ◌++◌, map,
}
use cvetool.Text.{Str, codes}
use cvetool.Image.Archive.{M}
use cvetool.Image.Archive.{
  Digest, BlobInfo, archive, handle, closer, Calls, State, bind, lift, call, blob_path, start_state,
  read_value, open_handle, read_json, digest_of, read_manifest,
}
use cvetool.Image.Archive.Slots.{After, After-cases}

-- The state of the first part: only files of `tarfs` have been opened.
abbrev pub started : List ℕ → State
started hs = record start_state { handles = hs; acquired = map handle hs ++ (closer archive ∷ []) }

abbrev pub IsStarted : State → Type 0
IsStarted s = (hs : List ℕ) × (s ≡ started hs)

-- A part of the first part.
abbrev KeepsStarted : {A : Type 0} → M A → Type 0
KeepsStarted m = (s : State) → IsStarted s → After IsStarted (λ a. IsStarted) (m s)

bind-KeepsStarted :
    {A B : Type 0} (m : M A) (rest : A → M B)
    → KeepsStarted m
    → ((a : A) → KeepsStarted (rest a))
    → KeepsStarted (bind m rest)
bind-KeepsStarted m rest hm hr s h = elim (After-cases IsStarted (λ a. IsStarted) (m s) (hm s h)) [
  | inl (t, f, q, v) ↦ rw q v
  | inr (t, a, q, v) ↦ rw q (hr a t v)
]

lift-KeepsStarted : {A : Type 0} (r : Result A) → KeepsStarted (lift r)
lift-KeepsStarted (err e) s h = h
lift-KeepsStarted (ok a) s h = h

-- A file is opened, and its `Close` deferred.
read_json-KeepsStarted :
    {A : Type 0} (calls : Calls) (path : Str) (opening reading parsing : String)
    (unmarshal : Str → Result A)
    → KeepsStarted (read_json calls path opening reading parsing unmarshal)
unfolding read_json open_handle
read_json-KeepsStarted calls path opening reading parsing unmarshal s (hs, e) =
    elim (Result-cases (calls.open_file path)) [
      | inr (x, q) ↦ rw q (hs, e)
      | inl (f, q) ↦ rw q (
          lift-KeepsStarted (read_value calls reading parsing unmarshal f) (with_handle f s)
            (f ∷ hs, ap (with_handle f) e))
    ]
  where
    with_handle : ℕ → State → State
    with_handle f z = record z { handles = f ∷ z.handles; acquired = handle f ∷ z.acquired }

module _ (calls : Calls) where
  abbrev rewound : Digest → List BlobInfo → M (Digest × List BlobInfo)
  rewound md infos = bind (call "unable to rewind tar" calls.rewind) λ v. lift (ok (md, infos))

  abbrev manifest_of : Digest → M (List BlobInfo)
  manifest_of md =
      read_json calls (blob_path md) "unable to open manifest" "unable to read manifest"
        "unable to unmarshal manifest" calls.unmarshal_manifest

  abbrev located : List BlobInfo → M (Digest × List BlobInfo)
  located manifests =
      bind (lift (digest_of calls manifests)) λ md. bind (manifest_of md) (rewound md)

  rewound-KeepsStarted : (md : Digest) (infos : List BlobInfo) → KeepsStarted (rewound md infos)
  rewound-KeepsStarted md infos =
      bind-KeepsStarted {B = Digest × List BlobInfo} (call "unable to rewind tar" calls.rewind)
        (λ v. lift (ok (md, infos)))
        (lift-KeepsStarted (wrap "unable to rewind tar" [] calls.rewind))
        λ v. lift-KeepsStarted {A = Digest × List BlobInfo} (ok (md, infos))

  located-KeepsStarted : (manifests : List BlobInfo) → KeepsStarted (located manifests)
  located-KeepsStarted manifests =
      bind-KeepsStarted (lift (digest_of calls manifests))
        (λ md. bind (manifest_of md) (rewound md)) (lift-KeepsStarted (digest_of calls manifests))
        λ md.
          bind-KeepsStarted (manifest_of md) (rewound md)
            (read_json-KeepsStarted calls (blob_path md) "unable to open manifest"
              "unable to read manifest" "unable to unmarshal manifest" calls.unmarshal_manifest)
            (rewound-KeepsStarted md)

  -- The state after the first part, also after an error.
  pub read_manifest-KeepsStarted : KeepsStarted (read_manifest calls)
  unfolding read_manifest
  read_manifest-KeepsStarted =
      let index =
        read_json calls (codes "index.json") "unable to open index.json" "unable to read index.json"
          "unable to unmarshal index.json" calls.unmarshal_index in
      bind-KeepsStarted (call "unable to create tarfs" calls.new_tarfs) (λ u. bind index located)
        (lift-KeepsStarted (wrap "unable to create tarfs" [] calls.new_tarfs))
        λ u.
          bind-KeepsStarted index located
            (read_json-KeepsStarted calls (codes "index.json") "unable to open index.json"
              "unable to read index.json" "unable to unmarshal index.json" calls.unmarshal_index)
            located-KeepsStarted
