-- ===== src/Frontend/Tests.antt =====
-- One pass of the main loops of cli/main.c and cui/main.c: zeros are written to a mounted disk.
use whdd_modify.Prelude.{◌≡◌, ◌≢◌, refl, true, false, none, some, List, [], ◌∷◌}
use whdd_modify.Devices.{Dev, DevList, same_text, dc_dev_list_get_entry, entry_from}
use whdd_modify.Procedure.Registry.{
  Procedure, Registry, dc_find_procedure, find_from, dc_get_procedure_by_index, entry_at,
}
use whdd_modify.Procedure.Interrupt.{
  Poll, wait, waiting, joined, ran, join_and_close, procedure_perform_until_interrupt,
}
use whdd_modify.Frontend.{
  menu, asks_invasive, asks_mounted, opens, performs, closes, Phase, IsOrderly, confirm,
  open_and_run, main_loop, ask_options,
}
use whdd_modify.Frontend.Cli
use whdd_modify.Frontend.Cui
use whdd_modify.Frontend.Orderly.Console
use whdd_modify.Frontend.Orderly.Dialogs
use whdd_modify.Frontend.Orderly.Console.{IsListed, console-IsOrderly}
use whdd_modify.Frontend.Orderly.Dialogs.{IsSuited, main-IsOrderly}

abbrev write_zeros : Procedure
write_zeros = record {
  name = 1;
  display_name = 7;
  is_invasive = true;
  requires_ata = false;
  performs = true;
  options = [];
  options_num = 0;
}

abbrev smart_show : Procedure
smart_show = record {
  name = 2;
  display_name = 8;
  is_invasive = false;
  requires_ata = false;
  performs = false;
  options = [];
  options_num = 0;
}

abbrev registry : Registry
registry = record { procedure_list = write_zeros ∷ smart_show ∷ []; nb_procedures = 2 }

abbrev disk : Dev
disk = record {
  dev_fs_name = 5 ∷ [];
  dev_path = 6 ∷ 5 ∷ [];
  identify = [];
  model_str = none;
  serial_no = none;
  ata_capable = false;
  capacity = 512;
  native_capacity = 0;
  mounted = true;
}

abbrev devices : DevList
devices = record { arr = disk ∷ []; arr_size = 1 }

abbrev finished : List Poll
finished = record { finished = true; signalled = false } ∷ []

abbrev typed : Cli.Input
typed = record {
  devlist = devices;
  device_number = some 0;
  action_number = some 0;
  answers = record { yes = true; yes_mounted = true };
  suggest = λ i. none;
  enter = λ i. none;
  open_succeeds = λ values. true;
  handles = true;
  starts = true;
  polls = finished;
  joined = joined 0;
  caught = false;
}

typed_events :
    main_loop (Cli.pass registry) (typed ∷ [])
    ≡ menu
      ∷ asks_invasive write_zeros disk true
      ∷ asks_mounted write_zeros disk true
      ∷ opens write_zeros disk true
      ∷ performs
      ∷ closes
      ∷ []
unfolding main_loop Cli.pass Cli.proceed Cli.request_and_get_device Cli.request_and_get_cli_action
    dc_dev_list_get_entry entry_from dc_get_procedure_by_index entry_at confirm open_and_run
    ask_options procedure_perform_until_interrupt wait ran join_and_close
typed_events = refl

wait_ends : (wait finished false).0 ≢ waiting
unfolding wait
wait_ends e = cc

typed_ends : Console.AllEnd (typed ∷ [])
typed_ends = (λ h s. (wait_ends, refl), tt)

console-IsOrderly_example :
    IsOrderly (IsListed registry) Phase.free (main_loop (Cli.pass registry) (typed ∷ []))
console-IsOrderly_example = console-IsOrderly registry (typed ∷ []) typed_ends

abbrev chosen : Cui.Input
chosen = record {
  device_name = some (5 ∷ []);
  replies = Cui.help 8 ∷ Cui.ok 7 ∷ [];
  answers = record { yes = true; yes_mounted = true };
  suggest = λ i. none;
  asked = λ i. record {
    config_supplied_value = none;
    config_suggested_value = none;
    input_result = none;
  };
  open_succeeds = λ values. true;
  renderer_opens = true;
  handles = true;
  starts = true;
  polls = finished;
  joined = joined 0;
  caught = false;
}

chosen_events :
    main_loop (Cui.pass registry devices) (chosen ∷ [])
    ≡ menu
      ∷ asks_invasive write_zeros disk true
      ∷ asks_mounted write_zeros disk true
      ∷ opens write_zeros disk true
      ∷ performs
      ∷ closes
      ∷ []
unfolding main_loop Cui.pass Cui.proceed Cui.menu_choose_device Cui.find_by_fs_name
    Cui.menu_choose_procedure Cui.offered Cui.pick same_text dc_dev_list_get_entry entry_from
    confirm open_and_run ask_options procedure_perform_until_interrupt wait ran join_and_close
chosen_events = refl

chosen_ends : Dialogs.AllEnd (chosen ∷ [])
chosen_ends = ((λ h s. (wait_ends, refl), refl), tt)

harmless : Dialogs.IsHarmless (dc_find_procedure registry 2)
unfolding dc_find_procedure find_from
harmless = (refl, refl)

abbrev texts : Cui.OptionTexts
texts = record {
  version = 11 ∷ [];
  list_devices = 12 ∷ [];
  quick_diagnosis = 13 ∷ [];
  smart = 14 ∷ [];
  help = 15 ∷ [];
  h = 16 ∷ [];
}

main-IsOrderly_example :
    IsOrderly IsSuited Phase.free (Cui.main texts 2 2 registry devices true (chosen ∷ []) [])
main-IsOrderly_example =
    main-IsOrderly registry devices texts 2 2 true (chosen ∷ []) [] chosen_ends harmless harmless
