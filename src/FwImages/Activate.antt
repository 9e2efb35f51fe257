-- ===== src/FwImages/Activate.antt =====
-- src/fw_images.c: the activation of a firmware image, at once or by lines of the crontab for time windows.
pub mod Windows
pub mod Outcome
pub mod Lines
use sysmngr.Prelude.{
  ℕ, zero, suc, ◌+◌, ◌-◌, ◌==◌, Bool, true, false, ◌&&◌, ◌||◌, not, Option, none, some, ◌>>=◌, List,
  [], ◌∷◌, ◌++◌, if◌then◌else◌, codes, is_empty, snprintf_s, length,
}
use sysmngr.Prelude.Strings.{Text}
use sysmngr.Prelude.Int.{ℤ, pos, ltb_ℤ, leb_ℤ, ◌+ℤ◌, ◌-ℤ◌}
use sysmngr.Libc.{strtol, decimal, decimal_ℤ}
use sysmngr.Uci.{Uci}
use sysmngr.Fwbank.{Blob, Fork, Fwbank}
use sysmngr.FwImages.{ImageLib, Images, globals_key, fwbank_set_bootbank, copy_if}

abbrev pub max_time_window : ℕ
max_time_window = 5

pub record Window : Type 0 where
  pub start_time : Text
  pub end_time : Text
  pub mode : Text
  pub user_message : Text
  pub max_retries : Text

-- The input: dmjson_get_value gives "" for what is not there.
abbrev pub window_key : ℕ → Text → Text
window_key i field = snprintf_s 32 (codes "TimeWindow." ++ (decimal (i + 1) ++ (46 ∷ field)))

abbrev pub get_window : (Text → Text) → ℕ → Window
get_window input i = record {
  start_time = input (window_key i (codes "Start"));
  end_time = input (window_key i (codes "End"));
  mode = input (window_key i (codes "Mode"));
  user_message = input (window_key i (codes "UserMessage"));
  max_retries = input (window_key i (codes "MaxRetries"));
}

-- The validators of libbbfdm (true if the value is accepted), the clock, the calendar and the faults.
pub record CronLib : Type 0 where
  pub validate_unsigned_int : Text → Bool
  pub validate_retries : Text → Bool
  pub validate_mode : Text → Bool
  pub now : ℤ
  -- The minute, hour, day and month (from 1) of localtime.
  pub local_time : ℤ → ℕ × ℕ × ℕ × ℕ
  pub invalid_argument : ℕ
  pub command_failure : ℕ

-- `previous` is the end of the window before.
abbrev pub not_before : Option ℤ → ℤ → Bool
not_before none start = true
not_before (some end) start = leb_ℤ end start

unfoldable pub window_is_valid : CronLib → Option ℤ → Window → Bool
window_is_valid lib previous w =
    not (is_empty w.end_time)
    && (not (is_empty w.mode)
        && (lib.validate_unsigned_int w.start_time
            && (lib.validate_unsigned_int w.end_time
                && ((is_empty w.max_retries || lib.validate_retries w.max_retries)
                    && (lib.validate_mode w.mode
                        && (leb_ℤ (strtol w.start_time) (strtol w.end_time)
                            && not_before previous (strtol w.start_time)))))))

-- The windows up to the first without a start; none if one is not valid.
unfoldable pub read_windows : CronLib → (Text → Text) → ℕ → ℕ → Option ℤ → Option (List Window)
read_windows lib input zero i previous = some []
read_windows lib input (suc left) i previous =
    let w = get_window input i in
    let rest = read_windows lib input left (i + 1) (some (strtol w.end_time)) in
    if is_empty w.start_time
    then some []
    else if window_is_valid lib previous w
    then (rest >>= λ ws. some (w ∷ ws))
    else none

abbrev pub start_in : Window → ℤ
start_in w = if ltb_ℤ (pos 60) (strtol w.start_time) then strtol w.start_time else pos 60

abbrev pub quoted : Text → Text → Text
quoted t rest = 39 ∷ (t ++ (39 ∷ rest))

abbrev pub cron_text : CronLib → Text → Text → Bool → Window → Text
cron_text lib bank_id keep_config is_last w =
    let (min, hour, mday, mon) = lib.local_time (lib.now +ℤ start_in w) in
    decimal min
    ++ (32
        ∷ (decimal hour
            ++ (32
                ∷ (decimal mday
                    ++ (32
                        ∷ (decimal mon
                            ++ (codes " * sh /usr/share/bbfdm/scripts/bbf_activate_handler.sh "
                                ++ quoted w.mode (
                                    32
                                    ∷ quoted bank_id (
                                        32
                                        ∷ quoted
                                            (decimal_ℤ (strtol w.end_time -ℤ strtol w.start_time))
                                            (32
                                              ∷ quoted (if is_last then codes "1" else codes "0") (
                                                  32
                                                  ∷ quoted w.user_message (
                                                      32
                                                      ∷ quoted w.max_retries
                                                          (32 ∷ quoted keep_config [])))))))))))))

-- The buffer takes 512 bytes.
unfoldable pub cron_line : CronLib → Text → Text → Bool → Window → Text
cron_line lib bank_id keep_config is_last w =
    snprintf_s 512 (cron_text lib bank_id keep_config is_last w ++ (10 ∷ []))

-- The lines of the windows from place `i` on; `last_idx` is the place of the last.
unfoldable pub cron_lines : CronLib → Text → Text → ℕ → ℕ → List Window → Text
unfolding cron_line
cron_lines lib bank_id keep_config last_idx i [] = []
cron_lines lib bank_id keep_config last_idx i (w ∷ ws) =
    cron_line lib bank_id keep_config (i == last_idx) w
    ++ cron_lines lib bank_id keep_config last_idx (i + 1) ws

module _ (u : Uci) (b : Blob) (lib : ImageLib) where
  -- The crontab, the images and the number of reboots that were forked.
  pub record Device : Type 0 where
    pub crontab : Text
    pub images : Images u b lib
    pub reboots : ℕ

  -- `restart` is the result of restarting cron, `opens` whether the crontab can be opened.
  abbrev pub schedule : CronLib → Bool → ℤ → Text → Text → List Window → Device → ℕ × Device
  schedule cron opens restart bank_id keep_config ws s =
      if opens
      then (
        elim restart [ pos zero ↦ 0 | _ ↦ cron.command_failure ],
        record s {
          crontab = s.crontab ++ cron_lines cron bank_id keep_config (length ws - 1) 0 ws;
        },
      )
      else (cron.command_failure, s)

  abbrev pub after_switch : CronLib → Text → Device → ℤ × Fwbank b → ℕ × Device
  after_switch cron keep_config s (pos zero, f) = (
    0,
    record s {
      images = copy_if u b lib keep_config (record s.images { fwbank = f });
      reboots = s.reboots + 1;
    },
  )
  after_switch cron keep_config s (_, f) =
      (cron.command_failure, record s { images = record s.images { fwbank = f } })

  abbrev pub activate_windows :
      CronLib → Fork → Bool → ℤ → Text → Text → Option (List Window) → Device → ℕ × Device
  activate_windows cron fork opens restart bank_id keep_config none s = (cron.invalid_argument, s)
  activate_windows cron fork opens restart [] keep_config (some ws) s = (cron.command_failure, s)
  activate_windows cron fork opens restart (c ∷ id) keep_config (some []) s =
      after_switch cron keep_config s (fwbank_set_bootbank u b lib fork (c ∷ id) s.images.fwbank)
  activate_windows cron fork opens restart (c ∷ id) keep_config (some (w ∷ ws)) s =
      schedule cron opens restart (c ∷ id) keep_config (w ∷ ws) s

  unfoldable pub operate_DeviceInfoFirmwareImage_Activate :
      CronLib → Fork → Bool → ℤ → Text → (Text → Text) → Device → ℕ × Device
  unfolding read_windows
  operate_DeviceInfoFirmwareImage_Activate cron fork opens restart bank_id input s =
      activate_windows cron fork opens restart bank_id
        (u.get s.images.config (globals_key u b lib (codes "keep_config")) (codes "1") 16)
        (read_windows cron input max_time_window 0 none) s
