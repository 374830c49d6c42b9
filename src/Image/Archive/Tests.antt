-- ===== src/Image/Archive/Tests.antt =====
-- A run of parseLocalArchive on an archive with one layer that is a plain tar file.
use cvetool.Prelude.{
  if◌then◌else◌, In, Error, Result, err, ok, ◌≡◌, refl, none, List, [], ◌∷◌, ◌++◌, map,
}
use cvetool.Text.{Str, codes, str_eq}
use cvetool.Image.Archive.{
  Digest, BlobInfo, Closer, archive, section, Layer, Resource, handle, closer, layer_of, Calls,
  start_state, read_manifest, parse_local_archive,
}
use cvetool.Image.Archive.Outcomes.{
  IsAnswered, final_state, parse_local_archive_closes, parse_local_archive_layers,
}

abbrev manifest : Digest
manifest = record { algorithm = codes "a"; checksum = codes "m" }

abbrev blob : Digest
blob = record { algorithm = codes "a"; checksum = codes "b" }

abbrev parse_digest : Str → Result Digest
parse_digest s = if str_eq s (codes "m") then ok manifest else ok blob

abbrev calls : Calls
calls = record {
  new_tarfs = ok tt;
  open_file = λ path. if str_eq path (codes "index.json") then ok 7 else ok 8;
  read_all = λ f. ok [];
  unmarshal_index = λ s. ok (
      record { media_type = codes "application/vnd.oci.image.manifest.v1+json"; digest = codes "m" }
      ∷ []);
  unmarshal_manifest = λ s. ok (
      record { media_type = codes "application/vnd.oci.image.layer.v1.tar"; digest = codes "b" }
      ∷ []);
  parse_digest = parse_digest;
  rewind = ok tt;
  entries =
      ok (record { name = codes "index.json"; size = 2 })
      ∷ ok (record { name = codes "blobs/a/b"; size = 9 })
      ∷ [];
  offset = λ h. ok 512;
  gzip_reader = λ s. ok tt;
  create_temp = λ n. ok tt;
  copy = λ n. ok tt;
  close_gzip = λ n. none;
  rewind_temp = λ n. ok tt;
  init = λ l. ok tt;
  close = λ r. none;
}

abbrev plain_layer : Layer
plain_layer = record {
  number = 0;
  hash = blob;
  media_type = codes "application/vnd.oci.image.layer.v1.tar";
  source = section 512 9;
}

parse_run : (parse_local_archive calls).result ≡ ok (manifest, plain_layer ∷ [], archive ∷ [])
unfolding parse_local_archive str_eq cvetool.Text.join cvetool.Text.has_prefix
parse_run = refl

-- The manifest and index.json are closed after a success.
closed_run : (parse_local_archive calls).closed ≡ handle 8 ∷ handle 7 ∷ []
unfolding parse_local_archive str_eq cvetool.Text.join cvetool.Text.has_prefix
closed_run = refl

-- A second entry for the blob is an error, and the layer and the archive are closed, too.
duplicate_run :
    (parse_local_archive (record calls { entries = calls.entries ++ calls.entries })).closed
    ≡ handle 8 ∷ handle 7 ∷ layer_of plain_layer ∷ closer archive ∷ []
unfolding parse_local_archive str_eq cvetool.Text.join cvetool.Text.has_prefix
duplicate_run = refl

parse_local_archive_closes_example :
    ((e : Error)
      → (parse_local_archive calls).result ≡ err e
      → (r : Resource) → In r (final_state calls).acquired
      → In r (parse_local_archive calls).closed)
    × ((md : Digest) (layers : List Layer) (readers : List Closer)
        → (parse_local_archive calls).result ≡ ok (md, layers, readers)
        → (r : Resource) → In r (final_state calls).acquired
        → IsAnswered (parse_local_archive calls).closed layers readers r)
parse_local_archive_closes_example = parse_local_archive_closes calls

parse_local_archive_layers_example :
    (infos : List BlobInfo) × ((read_manifest calls start_state).1 ≡ ok (manifest, infos))
    × (map (λ info. calls.parse_digest info.digest) infos ≡ map (λ l. ok l.hash) (plain_layer ∷ []))
parse_local_archive_layers_example =
    parse_local_archive_layers calls manifest (plain_layer ∷ []) (archive ∷ []) parse_run
