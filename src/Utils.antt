-- ===== src/Utils.antt =====
-- src/utils.c: the checks on a download, the uptime, the critical log and the message about a transfer.
use sysmngr.Prelude.{
  ℕ, ◌==◌, Bool, true, false, ◌&&◌, ◌||◌, not, Option, none, some, List, [], ◌∷◌, ◌++◌, ltb,
  if◌then◌else◌, codes, text_eq, has_prefix, is_empty, snprintf_s,
}
use sysmngr.Prelude.Strings.{Text}
use sysmngr.Prelude.Int.{ℤ, pos, negsuc}
use sysmngr.Libc.{strtol, strtoul, strtok, to_int}

-- A ubus message of bbfdm: the name, and rows of a path, a value and a type.
pub record Message : Type 0 where
  pub name : Text
  pub input : List (Text × Text × Text)

-- Constants of libbbfdm: the URI prefixes of dmcommon.h and the type names.
pub record Names : Type 0 where
  pub http_uri : Text
  pub ftp_uri : Text
  pub file_uri : Text
  pub dmt_unint : Text
  pub dmt_string : Text

abbrev pub ℤ_eq : ℤ → ℕ → Bool
ℤ_eq (pos n) m = n == m
ℤ_eq (negsuc n) m = false

-- Is the response code the one of success for the scheme of the url?
unfoldable pub validate_server_response_code : Names → Text → ℤ → Bool
validate_server_response_code lib url code =
    if (has_prefix url lib.http_uri && not (ℤ_eq code 200))
      || ((has_prefix url lib.ftp_uri && not (ℤ_eq code 226))
          || ((has_prefix url lib.file_uri && not (ℤ_eq code 0))
              || (not (has_prefix url lib.http_uri)
                  && (not (has_prefix url lib.ftp_uri) && not (has_prefix url lib.file_uri)))))
    then false
    else true

-- `available` is file_system_size ("/tmp", FS_SIZE_AVAILABLE).
unfoldable pub validate_file_system_size : ℕ → Text → Bool
validate_file_system_size available [] = true
validate_file_system_size available (c ∷ s) =
    if ltb available (strtoul (c ∷ s)) then false else true

-- The digest name of OpenSSL for a checksum algorithm of the data model.
abbrev pub digest_name : Text → Option Text
digest_name algorithm =
    if text_eq algorithm (codes "SHA-1")
    then some (codes "SHA1")
    else if text_eq algorithm (codes "SHA-224")
    then some (codes "SHA224")
    else if text_eq algorithm (codes "SHA-256")
    then some (codes "SHA256")
    else if text_eq algorithm (codes "SHA-384")
    then some (codes "SHA384")
    else if text_eq algorithm (codes "SHA-512")
    then some (codes "SHA512")
    else none

-- `digest` gives the digest of the file in hexadecimal under OpenSSL's name of the algorithm, none if
-- the file cannot be opened or the algorithm is not known.
abbrev pub validate_hash_value : (Text → Option Text) → Text → Text → Bool
validate_hash_value digest algo checksum = elim (digest algo) [
  | none ↦ false
  | some hash ↦ text_eq hash checksum
]

abbrev pub validate_named : (Text → Option Text) → Option Text → Text → Bool
validate_named digest none checksum = false
validate_named digest (some algo) checksum = validate_hash_value digest algo checksum

unfoldable pub validate_checksum_value : (Text → Option Text) → Text → Text → Bool
validate_checksum_value digest algorithm [] = true
validate_checksum_value digest algorithm (c ∷ s) =
    validate_named digest (digest_name algorithm) (c ∷ s)

-- The text up to the first dot of /proc/uptime; a file that cannot be read counts as 0.
abbrev pub uptime_of : Option (Text × Text) → ℤ
uptime_of none = pos 0
uptime_of (some (pch, rest)) = to_int (strtol pch)

unfoldable pub sysmngr_get_uptime : Option Text → ℤ
sysmngr_get_uptime none = pos 0
sysmngr_get_uptime (some line) = uptime_of (strtok (b'.' ∷ []) (snprintf_s 64 line))

-- The shell command that writes the critical log. For the state false the source passes `false`, a null
-- pointer, to "%s", which C does not define: none.
unfoldable pub critical_log_command : Text → Text → Bool → Option Text
critical_log_command log_path type true = some (
    snprintf_s 1024 (
      codes "sh /etc/sysmngr/critical_state_logger.sh "
      ++ (type ++ (32 ∷ (log_path ++ codes " true")))))
critical_log_command log_path type false = none

-- The TransferComplete! message; the times are printed by the caller's calendar.
unfoldable pub transfer_complete_event :
    Names → Text → Text → Text → Text → Text → Text → Option Text → Text → Message
transfer_complete_event lib command obj_path url fault start_time complete_time key transfer_type =
    record {
      name = codes "Device.LocalAgent.TransferComplete!";
      input =
          (codes "Command", command, lib.dmt_string)
          ∷ (codes "CommandKey", elim key [ none ↦ [] | some k ↦ k ], lib.dmt_string)
          ∷ (codes "Requestor", [], lib.dmt_string)
          ∷ (codes "TransferType", transfer_type, lib.dmt_string)
          ∷ (codes "Affected", obj_path, lib.dmt_string)
          ∷ (codes "TransferURL", url, lib.dmt_string)
          ∷ (codes "StartTime", start_time, lib.dmt_string)
          ∷ (codes "CompleteTime", complete_time, lib.dmt_string)
          ∷ (codes "FaultCode", if is_empty fault then codes "0" else codes "7000", lib.dmt_string)
          ∷ (codes "FaultString", fault, lib.dmt_string)
          ∷ [];
    }
