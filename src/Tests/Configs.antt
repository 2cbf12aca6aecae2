-- ===== src/Tests/Configs.antt =====
-- Configuration files for src/deepstream_fpfilter_app.c: one with a group "property" and a tracker,
-- and one that cannot be loaded.
use text.Mathlib.Text.{◌==◌ as str_eq}
use deepstream_fpfilter.Prelude.{
  ℕ, ◌≡◌, ◌≢◌, ◌↔◌, refl, true, false, Option, none, some, [], ◌∷◌, ◌++◌, if◌then◌else◌, arith, All,
  done,
}
use deepstream_fpfilter.Prelude.Int.{ℤ, pos}
use deepstream_fpfilter.Prelude.Text.{codes}
use deepstream_fpfilter.Pipeline.Graph.{Graph, graph}
use deepstream_fpfilter.Control.App.{App, enable_fpfilter}
use deepstream_fpfilter.Config.KeyFile.{KeyFiles}
use deepstream_fpfilter.Config.Property.{
  get_fpfilter_status_from_cfg_file, HasProperties, get_fpfilter_status_determined,
}
use deepstream_fpfilter.Config.Path.{slash, get_absolute_file_path, get_absolute_file_path_lem}
use deepstream_fpfilter.Config.Tracker.{
  tracker_config_file, set_tracker_properties, set_tracker_properties-Gives,
}
use deepstream_fpfilter.Pipeline.Store.{
  Store, store, store-IsDocumented, store-IsMaking, store-Fits, empty_store,
}
use deepstream_fpfilter.Bins.Row.{HoldsRow}
use deepstream_fpfilter.Bins.Inside.{create_filter_elements_bin-HoldsRow}
use deepstream_fpfilter.Bins.Filter.{create_filter_elements_bin}
use deepstream_fpfilter.Bins.Unusable.{enable_fpfilter_unusable}
use deepstream_fpfilter.Tests.Switches.{running}

-- The one file has the integers `width` for every key, and every path is "a.yml".
abbrev pub files : Option ℤ → KeyFiles
files width = record {
  File = Unit {0};
  load_from_file = λ path. if str_eq path "missing.txt" then none else some tt;
  has_group = λ f group. true;
  get_keys = λ f group. some ("tracker-width" ∷ "ll-config-file" ∷ "unknown" ∷ []);
  has_key = λ f group key. true;
  get_boolean = λ f group key. some false;
  get_integer = λ f group key. width;
  get_string = λ f group key. some (codes "a.yml");
  realpath = λ path. some (codes "/app" ++ (slash ∷ codes "t.txt"));
}

pub plain_name : All (λ c. c ≢ slash) (codes "t.txt")
plain_name = (
  (λ e. omega arith),
  ((λ e. omega arith), ((λ e. omega arith), ((λ e. omega arith), ((λ e. omega arith), tt)))),
)

get_fpfilter_status_determined_example :
    (get_fpfilter_status_from_cfg_file (files none) true "missing.txt"
      ≡ get_fpfilter_status_from_cfg_file (files none) false "missing.txt")
    ↔ HasProperties (files none) "missing.txt"
get_fpfilter_status_determined_example = get_fpfilter_status_determined (files none) "missing.txt"

get_absolute_file_path_lem_example :
    get_absolute_file_path (files none) tracker_config_file (some (codes "a.yml"))
    ≡ done (some (codes "/app/a.yml"))
get_absolute_file_path_lem_example =
    get_absolute_file_path_lem (files none) tracker_config_file (codes "/app") (codes "t.txt")
      (codes "a.yml") refl plain_name

set_tracker_properties-Gives_example :
    (w : Graph) × (set_tracker_properties (files (some (pos 640))) graph 3 (running []).pads.world
      ≡ done (true, w))
set_tracker_properties-Gives_example =
    set_tracker_properties-Gives (files (some (pos 640))) graph 3 (codes "/app") (codes "t.txt")
      refl plain_name (running []).pads.world

-- The filter is not enabled, in an empty store.
abbrev switched_off : App Store (Unit {0})
switched_off = record {
  pads = record { world = empty_store; probes = []; next_id = 1; copies = 0 };
  is_fpfilter_enabled = false;
  fpfilter_bin = 0;
  fp_filter_dynamic_link_info = (running []).fp_filter_dynamic_link_info;
  save_fpfilter_images = false;
  main_loop = tt;
}

enable_fpfilter_unusable_example :
    (w : Store) × (enable_fpfilter store
        (create_filter_elements_bin (files none) store)
        switched_off
      ≡ done (record switched_off {
        pads = record (switched_off.pads) { world = w };
        fpfilter_bin = 0;
      }))
    × ((e : ℕ) → store-IsMaking.Exists empty_store e → store-IsMaking.Exists w e)
    × (w.inner.shape ≡ empty_store.inner.shape)
enable_fpfilter_unusable_example =
    enable_fpfilter_unusable (files none) store-IsMaking (codes "/app") (codes "t.txt") refl
      plain_name refl switched_off refl

create_filter_elements_bin-HoldsRow_example :
    (bin : ℕ) × (w' : Store) × (create_filter_elements_bin
        (files (some (pos 640)))
        store
        empty_store
      ≡ done (bin, w'))
    × (bin ≢ 0 → (bin ≡ 1) × HoldsRow store-IsMaking empty_store w' bin 2 (3 ∷ 4 ∷ []))
create_filter_elements_bin-HoldsRow_example =
    create_filter_elements_bin-HoldsRow (files (some (pos 640))) store-IsDocumented store-IsMaking
      (codes "/app") (codes "t.txt") refl plain_name empty_store
      (store-Fits 2 3, (store-Fits 3 4, tt))
