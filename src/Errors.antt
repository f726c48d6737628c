-- ===== src/Errors.antt =====
-- The errors that the modelled commands return: cmd/typed-errors.go and the causes that the
-- listing of a client reports (cmd/client-errors.go, minio.ErrorResponse). A message is kept as the
-- values that it is written from.
use mc.Base.Strings.{Bytes}

-- differType of cmd/difference.go; `differInNone` and the others without their prefix.
pub data DifferType : Type 0 where
  in_unknown in_none in_size in_metadata in_type in_first in_second in_aa_source_mtime : DifferType

-- What err.ToGoError() gives for an error of a listing.
pub data GoError : Type 0 where
  path_not_found : Bytes → GoError
  path_insufficient_permission : Bytes → GoError
  path_not_a_directory : Bytes → GoError
  broken_symlink : Bytes → GoError
  too_many_levels_symlink : Bytes → GoError
  bucket_name_empty bucket_does_not_exist bucket_invalid : GoError
  object_missing object_already_exists object_already_exists_as_directory : GoError
  error_response : (code text : Bytes) → GoError
  other_error : Bytes → GoError

pub data McError : Type 0 where
  listing : GoError → McError
  invalid_source : Bytes → McError
  invalid_target : Bytes → McError
  overwrite_not_allowed : Bytes → McError
  unrecognized_diff_type : DifferType → McError
  sse_invalid_alias : Bytes → McError
  sse_overlapping_alias : Bytes → Bytes → McError
  sse_prefix_match : McError
  sse_key_missing : McError
  sse_kms_key_format : Bytes → McError
  sse_client_key_format : Bytes → McError
  unable_to_guess : McError → McError
  invalid_argument : McError
  source_is_dir : Bytes → McError
  target_is_not_dir : Bytes → McError
  requires_recursive : Bytes → McError
  copy_into_self : Bytes → McError
