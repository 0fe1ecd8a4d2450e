-- ===== src/Examples/Fetches.antt =====
-- A fetch of an artifact that is compressed, from a file.
use fire_drill.Base.{
  ℕ, pos, ◌≡◌, refl, ◌∷◌, [], List, ok, err, true, false, nat_eq, string_eq, arith, none, some,
  codes,
}
use fire_drill.Spec.Document.{From}
use fire_drill.Source.Limits.{Stream, uncompressed_limit, copy_limited, limit_reader}
use fire_drill.Source.Layers.{Decoders, detect_encryption, decrypt, decompress, detect}
use fire_drill.Source.Fetch.{
  Host, fetch_file, parse_s3_uri, plain_ext, invalid_uri, open_artifact, materialize, spool,
}
use fire_drill.Source.Fetch.Spooled.{IsGuard}
use fire_drill.Source.Fetch.Honest.{IsFetched, fetch_file_honest}
use fire_drill.Examples.Sources.{from}

abbrev without_magic : List ℕ → List ℕ
without_magic (a ∷ b ∷ rest) = rest
without_magic bytes = bytes

abbrev decoders : Decoders
decoders = record {
  header = codes "-----BEGIN AGE ENCRYPTED FILE-----";
  open_file = λ p. err "no such file";
  getenv = λ n. "";
  parse_identities = λ b. ok [];
  scrypt_identity = λ p. ok p;
  age = λ ids armored s. ok s;
  gpg_path = none;
  pipe = none;
  stdout_pipe = none;
  start = none;
  gpg = λ pass s. (s, none);
  gzip = λ s. ok (record s { bytes = without_magic s.bytes });
  zstd = λ s. ok s;
  bzip2 = λ s. s;
}

abbrev stored : List ℕ → Stream
stored bytes = record { bytes = bytes; error = none }

abbrev host : List ℕ → Host
host bytes = record {
  decoders = decoders;
  list_directory = ok [];
  join = λ d n. n;
  stat = λ p. ok (record { mod_time = 5; size = pos 4; is_dir = false });
  open_backup = λ p. ok (stored bytes);
  create_temp = λ p. ok "/tmp/firedrill-backup-1.dump";
  room = none;
  close_temp = none;
  remove_temp = none;
}

abbrev plain_from : From
plain_from = record from {
  type = "file";
  uri = "backups/payments.dump.gz";
  select = "";
  decrypt = none;
  max_bytes = pos 10;
  max_uncompressed_bytes = pos 0;
}

plain_from-IsGuard :
    IsGuard (uncompressed_limit plain_from.max_bytes plain_from.max_uncompressed_bytes)
unfolding uncompressed_limit
plain_from-IsGuard = (1000, refl, omega arith)

fetch_file_honest_example :
    IsFetched
      (host (31 ∷ 139 ∷ 1 ∷ 2 ∷ []))
      plain_from
      (fetch_file (host (31 ∷ 139 ∷ 1 ∷ 2 ∷ [])) plain_from)
fetch_file_honest_example =
    fetch_file_honest (host (31 ∷ 139 ∷ 1 ∷ 2 ∷ [])) plain_from plain_from-IsGuard

fetch_gzip :
    (fetch_file (host (31 ∷ 139 ∷ 1 ∷ 2 ∷ [])) plain_from).left
    ≡ some ("/tmp/firedrill-backup-1.dump", 1 ∷ 2 ∷ [])
unfolding fetch_file open_artifact decrypt decompress detect_encryption detect materialize spool
    uncompressed_limit plain_ext copy_limited limit_reader
fetch_gzip = refl

uri_key : parse_s3_uri "s3://backups/nightly/a.dump" false ≡ ok ("backups", "nightly/a.dump")
unfolding parse_s3_uri
uri_key = refl

uri_bucket : parse_s3_uri "s3://backups" true ≡ ok ("backups", "")
unfolding parse_s3_uri
uri_bucket = refl

uri_no_key : parse_s3_uri "s3://backups" false ≡ err (invalid_uri "s3://backups")
unfolding parse_s3_uri
uri_no_key = refl
