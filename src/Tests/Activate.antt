-- ===== src/Tests/Activate.antt =====
-- The theorems on the activation in src/fw_images.c at a concrete run.
use sysmngr.Prelude.{◌≤◌, refl, true, [], ◌∷◌, if◌then◌else◌, Text, codes, text_eq, length}
use sysmngr.Prelude.Int.{pos}
use sysmngr.Libc.{digits_value, signed_digits, strtol, decimal, digits_before}
use sysmngr.Uci.Table.{table_uci}
use sysmngr.Tests.Fwbank.{blob}
use sysmngr.Tests.FwImages.{image_lib, images}
use sysmngr.FwImages.Activate.{Window, CronLib, read_windows, window_is_valid, Device}
use sysmngr.FwImages.Activate.Windows.{Ordered, read_windows-Ordered}
use sysmngr.FwImages.Activate.Outcome.{Outcome}

abbrev cron : CronLib
cron = record {
  validate_unsigned_int = λ t. true;
  validate_retries = λ t. true;
  validate_mode = λ t. true;
  now = pos 0;
  local_time = λ t. (0, 1, 2, 3);
  invalid_argument = 7004;
  command_failure = 7022;
}

-- Two windows, from 100 to 200 and from 200 to 300.
abbrev input : Text → Text
input key =
    if text_eq key (codes "TimeWindow.1.Start")
    then codes "100"
    else if text_eq key (codes "TimeWindow.1.End")
    then codes "200"
    else if text_eq key (codes "TimeWindow.2.Start")
    then codes "200"
    else if text_eq key (codes "TimeWindow.2.End")
    then codes "300"
    else if text_eq key (codes "TimeWindow.1.Mode")
    then codes "AnyTime"
    else if text_eq key (codes "TimeWindow.2.Mode")
    then codes "Immediately"
    else []

abbrev first_window : Window
first_window = record {
  start_time = codes "100";
  end_time = codes "200";
  mode = codes "AnyTime";
  user_message = [];
  max_retries = [];
}

abbrev second_window : Window
second_window = record {
  start_time = codes "200";
  end_time = codes "300";
  mode = codes "Immediately";
  user_message = [];
  max_retries = [];
}

abbrev device : Device table_uci blob image_lib
device = record { crontab = []; images = images; reboots = 0 }

read_windows-Ordered_example :
    Ordered (first_window ∷ second_window ∷ []) × (length (first_window ∷ second_window ∷ []) ≤ 5)
read_windows-Ordered_example = read_windows-Ordered cron input (first_window ∷ second_window ∷ []) (
    unfold read_windows window_is_valid strtol signed_digits digits_value decimal digits_before in
    refl)
