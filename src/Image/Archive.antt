-- ===== src/Image/Archive.antt =====
-- image/manifest.go, parseLocalArchive and closeManifestResources: the layers of an image in a tar
-- archive, and the files that have to be closed. What other packages do is a parameter, `Calls`.
pub mod Slots
mod Handles
mod Closed
pub mod Outcomes
mod Tests
use cvetool.Prelude.{
  ◌==◌, if◌then◌else◌, length, Error, errorf, wrapf, joined, Result, err, ok, wrap, fail_if, ◌>>=◌,
  ◌>>◌, ℕ, zero, suc, ◌+◌, String, Bool, true, false, not, ◌&&◌, ◌||◌, Option, none, some, List, [],
  ◌∷◌, ◌++◌, map,
}
use cvetool.Text.{Str, codes, str_eq, contains, has_prefix, is_abs, clean, join_path}

pub record Digest : Type 0 where
  pub algorithm : Str
  pub checksum : Str

-- `manifestInfo` and `layerInfo`
pub record BlobInfo : Type 0 where
  pub media_type : Str
  pub digest : Str

pub record Header : Type 0 where
  pub name : Str
  pub size : ℕ

-- An open file: the archive, or the temporary file that was created as number n.
pub data Closer : Type 0 where
  archive : Closer
  temp : ℕ → Closer

-- Where a layer reads: a section of the archive, or a file.
pub data Source : Type 0 where
  section : ℕ → ℕ → Source
  file : Closer → Source

-- `claircore.Layer`, with the number of its initialisation
pub record Layer : Type 0 where
  pub number : ℕ
  pub hash : Digest
  pub media_type : Str
  pub source : Source

-- What has to be closed: a reader, a layer, or an open file of `tarfs` (index.json or the manifest).
pub data Resource : Type 0 where
  handle : ℕ → Resource
  closer : Closer → Resource
  layer_of : Layer → Resource

-- The results of the calls of other packages: `entries` are those of `tr.Next` before io.EOF, and
-- a JSON value `null`, at which the program panics, is no result of the two `unmarshal`.
pub record Calls : Type 0 where
  pub new_tarfs : Result (Unit {0})
  pub open_file : Str → Result ℕ
  pub read_all : ℕ → Result Str
  pub unmarshal_index : Str → Result (List BlobInfo)
  pub unmarshal_manifest : Str → Result (List BlobInfo)
  pub parse_digest : Str → Result Digest
  pub rewind : Result (Unit {0})
  pub entries : List (Result Header)
  pub offset : Header → Result ℕ
  pub gzip_reader : Source → Result (Unit {0})
  pub create_temp : ℕ → Result (Unit {0})
  pub copy : ℕ → Result (Unit {0})
  pub close_gzip : ℕ → Option Error
  pub rewind_temp : ℕ → Result (Unit {0})
  pub init : Layer → Result (Unit {0})
  pub close : Resource → Option Error

-- `parsed.Layers` as a function of the index, `readers`, the files of the deferred `index.Close()` and
-- `manifest.Close()` in the order in which they run, `seenLayerBlobs`, the number of temporary files
-- and of initialised layers, and the resources that calls have acquired, the last one first.
pub record State : Type 0 where
  pub layers : ℕ → Option Layer
  pub layer_count : ℕ
  pub readers : List Closer
  pub handles : List ℕ
  pub seen : List Str
  pub temps : ℕ
  pub inits : ℕ
  pub acquired : List Resource

-- A part of parseLocalArchive. The deferred function reads the state also after an error.
abbrev pub M : Type 0 → Type 0
M A = State → State × Result A

-- The rest after a part, if the part has no error.
abbrev pub after : {A B : Type 0} → (A → M B) → State × Result A → State × Result B
after rest (s, err e) = (s, err e)
after rest (s, ok a) = rest a s

abbrev pub bind : {A B : Type 0} → M A → (A → M B) → M B
bind m rest s = after rest (m s)

abbrev pub lift : {A : Type 0} → Result A → M A
lift r s = (s, r)

abbrev pub call : {A : Type 0} → String → Result A → M A
call format r = lift (wrap format [] r)

abbrev pub modify : (State → State) → M (Unit {0})
modify f s = (f s, ok tt)

abbrev pub update : (ℕ → Option Layer) → ℕ → Layer → ℕ → Option Layer
update f i l j = if i == j then some l else f j

-- `filepath.Join("blobs", ld.Algorithm(), hex)`
pub blob_path : Digest → Str
unfolding join_path
blob_path d = join_path (join_path (codes "blobs") d.algorithm) d.checksum

-- `errors.Join` of an error and a result of `errors.Join`
abbrev pub join_with : Error → Option Error → Error
join_with e none = e
join_with e (some f) = joined e f

abbrev pub join_all : List (Option Error) → Option Error
join_all [] = none
join_all (none ∷ es) = join_all es
join_all (some e ∷ es) = some (join_with e (join_all es))

-- The layers of the slice that are not nil.
pub layers_below : ℕ → (ℕ → Option Layer) → List Layer
layers_below zero f = []
layers_below (suc n) f =
    layers_below n f ++ elim (f n) as (λ o. List Layer) [ none ↦ [] | some l ↦ l ∷ [] ]

-- What `closeManifestResources` closes, and the error that it returns.
pub close_manifest_resources :
    (Resource → Option Error) → List Layer → List Closer → List Resource × Option Error
close_manifest_resources close layers readers =
    let all = map layer_of layers ++ map closer readers in (all, join_all (map close all))

-- `filepath.IsLocal` of a clean path
abbrev pub is_local : Str → Bool
unfolding is_abs
is_local path =
    not (is_abs path) && (not (str_eq path (codes "..")) && not (has_prefix path (codes "../")))

abbrev pub is_gzip : Str → Bool
is_gzip t =
    str_eq t (codes "application/vnd.oci.image.layer.v1.tar+gzip")
    || str_eq t (codes "application/vnd.docker.image.rootfs.diff.tar.gzip")

abbrev pub is_tar : Str → Bool
is_tar t =
    str_eq t (codes "application/vnd.oci.image.layer.v1.tar")
    || str_eq t (codes "application/vnd.docker.image.rootfs.diff.tar")

-- `readers := []io.Closer{f}`, with no layers
abbrev pub start_state : State
start_state = record {
  layers = λ i. none;
  layer_count = 0;
  readers = archive ∷ [];
  handles = [];
  seen = [];
  temps = 0;
  inits = 0;
  acquired = closer archive ∷ [];
}

-- A `*Layer` slot is filled, and its layer is counted as acquired.
abbrev pub acquire_layer : ℕ → Layer → M (Unit {0})
acquire_layer i l = modify (λ s. record s {
  layers = update s.layers i l;
  inits = suc s.inits;
  acquired = layer_of l ∷ s.acquired;
})

-- `defer index.Close()` and `defer manifest.Close()`
abbrev pub defer_close : ℕ → M (Unit {0})
defer_close f = modify (λ s. record s { handles = f ∷ s.handles })

-- `readers = append(readers, tmp)`, after os.CreateTemp
abbrev pub acquire_temp : M ℕ
acquire_temp s = (
  record s {
    readers = s.readers ++ (temp s.temps ∷ []);
    temps = suc s.temps;
    acquired = closer (temp s.temps) ∷ s.acquired;
  },
  ok s.temps,
)

module _ (calls : Calls) where
  abbrev pub close_gzip_reader : ℕ → Result (Unit {0})
  close_gzip_reader n = elim (calls.close_gzip n) [
    | none ↦ ok tt
    | some e ↦ err (wrapf "unable to close gzip reader" [] e)
  ]

  -- The error of os.CreateTemp, joined with that of the reader's Close.
  abbrev pub created : ℕ → Result (Unit {0})
  created n = elim (calls.create_temp n) [
    | ok u ↦ ok tt
    | err e ↦ err (wrapf "unable to create temp file" [] (join_with e (calls.close_gzip n)))
  ]

  abbrev pub copied : ℕ → Result (Unit {0})
  copied n = elim (calls.copy n) [
    | ok u ↦ ok tt
    | err e ↦ err (join_with (wrapf "unable to decompress layer" [] e) (calls.close_gzip n))
  ]

  -- The calls up to os.CreateTemp, for the temporary file of that number.
  pub prepare_temp : Source → ℕ → Result (Unit {0})
  prepare_temp ra n =
      wrap "unable to create gzip reader" [] (calls.gzip_reader ra) >>= λ u. created n

  -- The calls from io.Copy to the rewinding of the file.
  pub unpack : ℕ → Result Source
  unpack n =
      copied n
      >> (close_gzip_reader n
          >> (wrap "unable to rewind temp file" [] (calls.rewind_temp n) >> ok (file (temp n))))

  -- The `switch` over the media type: what the layer reads.
  pub layer_source : Str → Source → M Source
  unfolding prepare_temp unpack
  layer_source media_type ra s =
      if is_gzip media_type
      then after (λ u. bind acquire_temp (λ n. lift (unpack n))) (s, prepare_temp ra s.temps)
      else if is_tar media_type
      then (s, ok ra)
      else (s, err (errorf "unsupported layer media type: %s" (media_type ∷ [])))

  -- The entry of a layer blob: a blob has one entry.
  pub mark_seen : Bool → Str → M (Unit {0})
  unfolding contains
  mark_seen true path s = (s, ok tt)
  mark_seen false path s =
      if contains s.seen path
      then (s, err (errorf "duplicate layer blob entry %q" (path ∷ [])))
      else (record s { seen = path ∷ s.seen }, ok tt)

  pub init_layer : ℕ → Digest → Str → Source → M (Unit {0})
  init_layer i ld media_type source s =
      let l : Layer = record {
        number = s.inits;
        hash = ld;
        media_type = media_type;
        source = source;
      } in
      bind (call "unable to initialize layer" (calls.init l)) (λ u. acquire_layer i l) s

  -- The body of `if cleanName == layerPath`
  pub match_layer : Header → ℕ → ℕ → BlobInfo → Digest → Bool → M (Unit {0})
  unfolding layer_source mark_seen init_layer blob_path
  match_layer hdr start i l ld matched = bind (mark_seen matched (blob_path ld)) (λ u.
      bind (layer_source l.media_type (section start hdr.size))
        (λ source. init_layer i ld l.media_type source))

  -- One round of the loop over `m.Layers`; the result is `matchedLayerBlob`.
  pub try_layer : Header → Str → ℕ → ℕ → BlobInfo → Bool → M Bool
  unfolding match_layer blob_path
  try_layer hdr name start i l matched =
      bind (call "unable to parse layer digest" (calls.parse_digest l.digest)) (λ ld.
        if str_eq name (blob_path ld)
        then bind (match_layer hdr start i l ld matched) (λ u. lift (ok true))
        else lift (ok matched))

  pub layer_loop : Header → Str → ℕ → ℕ → List BlobInfo → Bool → M (Unit {0})
  unfolding try_layer
  layer_loop hdr name start i [] matched = lift (ok tt)
  layer_loop hdr name start i (l ∷ ls) matched =
      bind (try_layer hdr name start i l matched) (layer_loop hdr name start (suc i) ls)

  -- The body of the loop over the entries of the archive.
  pub read_entry : List BlobInfo → Result Header → M (Unit {0})
  unfolding layer_loop clean
  read_entry infos entry = bind (call "unable to read layer" entry) (λ hdr.
      if not (is_local (clean hdr.name))
      then lift (err (errorf "invalid tar entry path %q" (hdr.name ∷ [])))
      else bind (call "unable to get layer offset" (calls.offset hdr))
          (λ start. layer_loop hdr (clean hdr.name) start 0 infos false))

  pub entry_loop : List BlobInfo → List (Result Header) → M (Unit {0})
  unfolding read_entry
  entry_loop infos [] = lift (ok tt)
  entry_loop infos (e ∷ es) = bind (read_entry infos e) (λ u. entry_loop infos es)

  pub found : Option Layer → BlobInfo → Result (Unit {0})
  found none l = err (errorf "layer %d (%s) not found in tar" (l.digest ∷ []))
  found (some y) l = ok tt

  -- The last loop: every layer was found.
  pub all_found : ℕ → List BlobInfo → M (Unit {0})
  unfolding found
  all_found i [] s = (s, ok tt)
  all_found i (l ∷ ls) s = after (λ u. all_found (suc i) ls) (s, found (s.layers i) l)

  abbrev pub manifest_digest : List BlobInfo → Str
  manifest_digest [] = []
  manifest_digest (m ∷ ms) =
      if str_eq m.media_type (codes "application/vnd.oci.image.manifest.v1+json")
      then m.digest
      else manifest_digest ms

  -- `io.ReadAll` and `json.Unmarshal` of an open file.
  abbrev pub read_value : {A : Type 0} → String → String → (Str → Result A) → ℕ → Result A
  read_value reading parsing unmarshal f =
      wrap reading [] (calls.read_all f) >>= λ b. wrap parsing [] (unmarshal b)

  -- `fs.Open`
  pub open_handle : Str → String → M ℕ
  open_handle path opening =
      bind (call opening (calls.open_file path))
        λ f. bind (modify (λ s. record s { acquired = handle f ∷ s.acquired })) λ u. lift (ok f)

  -- A file of the archive: `fs.Open`, the deferred `Close`, `io.ReadAll` and `json.Unmarshal`.
  pub read_json : {A : Type 0} → Str → String → String → String → (Str → Result A) → M A
  unfolding open_handle
  read_json path opening reading parsing unmarshal =
      bind (open_handle path opening)
        λ f. bind (defer_close f) λ u. lift (read_value reading parsing unmarshal f)

  -- The digest of the manifest.
  pub digest_of : List BlobInfo → Result Digest
  digest_of manifests =
      fail_if (str_eq (manifest_digest manifests) []) (errorf "manifest digest not found" [])
      >> wrap "unable to parse manifest digest" [] (calls.parse_digest (manifest_digest manifests))

  -- The part that reads index.json and the manifest: the digest of the manifest, and its layers.
  pub read_manifest : M (Digest × List BlobInfo)
  unfolding blob_path read_json digest_of
  read_manifest = bind (call "unable to create tarfs" calls.new_tarfs) λ u.
      bind
        (read_json (codes "index.json") "unable to open index.json" "unable to read index.json"
          "unable to unmarshal index.json" calls.unmarshal_index)
        λ manifests. bind (lift (digest_of manifests)) λ md.
          bind
            (read_json (blob_path md) "unable to open manifest" "unable to read manifest"
              "unable to unmarshal manifest" calls.unmarshal_manifest)
            λ infos. bind (call "unable to rewind tar" calls.rewind) λ v. lift (ok (md, infos))

  -- The body of parseLocalArchive, without the deferred function.
  pub parse_body : M Digest
  unfolding read_manifest entry_loop all_found
  parse_body = bind read_manifest (λ (md, infos).
      bind (modify (λ s. record s { layer_count = length infos })) (λ u.
        bind (entry_loop infos calls.entries) (λ v. bind (all_found 0 infos) (λ w. lift (ok md)))))

-- What the caller gets, and what the deferred calls have closed: the two files also after a success.
pub record Outcome : Type 0 where
  pub result : Result (Digest × List Layer × List Closer)
  pub closed : List Resource

pub deferred : (Resource → Option Error) → State × Result Digest → Outcome
unfolding close_manifest_resources layers_below
deferred close (s, ok md) = record {
  result = ok (md, layers_below s.layer_count s.layers, s.readers);
  closed = map handle s.handles;
}
deferred close (s, err e) =
    let (closed, f) =
      close_manifest_resources close (layers_below s.layer_count s.layers) s.readers in
    record { result = err (join_with e f); closed = map handle s.handles ++ closed }

-- `parseLocalArchive`
pub parse_local_archive : Calls → Outcome
unfolding parse_body deferred
parse_local_archive calls = deferred calls.close (parse_body calls start_state)
