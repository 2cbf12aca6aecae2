-- ===== src/Main/Start.antt =====
-- `main` of src/deepstream_fpfilter_app.c, from the arguments to the pipeline that plays. The functions
-- that make the bins of the source and of the sink are parameters: the build chooses them.
use mathlib.Core.Option
use deepstream_fpfilter.Prelude.{
  ℕ, Bool, true, false, not, ◌||◌, Option, none, some, List, [], ◌∷◌, ◌==◌, leb, length,
  if◌then◌else◌, Run, done, fault, ◌>>=◌,
}
use deepstream_fpfilter.Prelude.Int.{ℤ, pos}
use deepstream_fpfilter.Prelude.Text.{codes, snprintf}
use deepstream_fpfilter.Pipeline.Gst.{Gst, string, int, bus_call, after_filter_buffer_probe}
use deepstream_fpfilter.Pipeline.Many.{bin_add_many, link_from}
use deepstream_fpfilter.Config.KeyFile.{KeyFiles}
use deepstream_fpfilter.Config.Property.{
  get_fpfilter_status_from_cfg_file, get_pgie_id_from_cfg_file,
}
use deepstream_fpfilter.Control.App.{App}

-- The local variables of `main` that hold elements.
pub record Elements : Type 0 where
  pub pipeline : ℕ
  pub source : ℕ
  pub streammux : ℕ
  pub primary_detector : ℕ
  pub nvvidconv1 : ℕ
  pub nvvidconv2 : ℕ
  pub nvvidconv3 : ℕ
  pub nvosd : ℕ

-- What `main` has set up when the pipeline plays.
pub record Running (World Loop : Type 0) : Type 0 where
  pub elements : Elements
  pub sink : ℕ
  pub app : App World Loop
  pub output_path : List ℕ
  pub source_info : List ℕ
  pub pgie_unique_id : ℤ

-- The elements behind the muxer, in the order of the stream.
abbrev pub stream : Elements → ℕ → Bool → ℕ → List ℕ
stream e sink is_fpfilter_enabled fpfilter_bin =
    if is_fpfilter_enabled
    then e.primary_detector ∷ e.nvvidconv1 ∷ fpfilter_bin ∷ e.nvvidconv2 ∷ e.nvosd ∷ e.nvvidconv3
      ∷ sink ∷ []
    else e.primary_detector ∷ e.nvvidconv1 ∷ e.nvvidconv2 ∷ e.nvosd ∷ e.nvvidconv3 ∷ sink ∷ []

module _ (G : Gst) where
  -- The elements but for the sink; `none` is a return of -1.
  unfoldable pub create_elements :
      (List ℕ → G.World → ℕ × G.World) → List ℕ → G.World → Option (Elements × G.World)
  create_elements create_source_bin location w =
      let (pipeline, w₁) = G.bin_new w in
      let (source, w₂) = create_source_bin location w₁ in
      let (streammux, w₃) = G.factory_make "nvstreammux" w₂ in
      let (primary_detector, w₄) = G.factory_make "nvinfer" w₃ in
      let (nvvidconv1, w₅) = G.factory_make "nvvideoconvert" w₄ in
      let (nvvidconv2, w₆) = G.factory_make "nvvideoconvert" w₅ in
      let (nvvidconv3, w₇) = G.factory_make "nvvideoconvert" w₆ in
      let (nvosd, w₈) = G.factory_make "nvdsosd" w₇ in
      if pipeline == 0 || streammux == 0
      then none
      else if source == 0
          || primary_detector == 0
          || nvvidconv1 == 0
          || nvvidconv2 == 0
          || nvvidconv3 == 0
          || nvosd == 0
      then none
      else some (
        record {
          pipeline = pipeline;
          source = source;
          streammux = streammux;
          primary_detector = primary_detector;
          nvvidconv1 = nvvidconv1;
          nvvidconv2 = nvvidconv2;
          nvvidconv3 = nvvidconv3;
          nvosd = nvosd;
        },
        w₈,
      )

  -- The properties of the elements, and the watch on the bus.
  unfoldable pub set_properties : Elements → G.World → G.World
  set_properties e w =
      let w₁ = G.set e.streammux "width" (int (pos 960)) w in
      let w₂ = G.set e.streammux "height" (int (pos 544)) w₁ in
      let w₃ = G.set e.streammux "batch-size" (int (pos 1)) w₂ in
      let w₄ = G.set e.streammux "batched-push-timeout" (int (pos 40000)) w₃ in
      let w₅ =
        G.set e.primary_detector "config-file-path"
          (string (some (codes "config/config_infer_peoplenet.txt"))) w₄ in
      let w₆ = G.set e.nvosd "display-mask" (int (pos 1)) w₅ in
      let w₇ = G.set e.nvosd "display-bbox" (int (pos 1)) w₆ in
      let w₈ = G.set e.nvosd "process-mode" (int (pos 0)) w₇ in
      G.connect (G.get_bus e.pipeline w₈) bus_call w₈

  -- The filter where it is enabled, and NULL where it is not; `none` is a return of -1.
  unfoldable pub create_filter :
      (G.World → Run (ℕ × G.World)) → Bool → G.World → Run (Option (ℕ × G.World))
  create_filter create_filter_elements_bin is_fpfilter_enabled w =
      if is_fpfilter_enabled
      then (create_filter_elements_bin w >>= λ (bin, w').
          done (if bin == 0 then none else some (bin, w')))
      else done (some (0, w))

  unfoldable pub add_elements : Elements → ℕ → Bool → ℕ → G.World → G.World
  unfolding bin_add_many
  add_elements e sink is_fpfilter_enabled fpfilter_bin w =
      let w₁ =
        bin_add_many G e.pipeline
          (e.source ∷ e.streammux ∷ e.primary_detector ∷ e.nvosd ∷ e.nvvidconv1 ∷ e.nvvidconv2
            ∷ e.nvvidconv3 ∷ sink ∷ [])
          w in
      if is_fpfilter_enabled then G.bin_add e.pipeline fpfilter_bin w₁ else w₁

  -- The source bin to the muxer, by pads; `none` is a return of -1.
  unfoldable pub link_source : Elements → G.World → Option G.World
  link_source e w =
      let (sinkpad, w₁) = G.get_request_pad e.streammux "sink_0" w in
      let srcpad = G.get_static_pad e.source "src" w₁ in
      let (linked, w₂) = G.pad_link srcpad sinkpad w₁ in
      if sinkpad == 0 then none else if srcpad == 0 then none else if linked then some w₂ else none

  -- The links, the probe behind the filter, and the state of the pipeline; `none` is a return of -1.
  unfoldable pub link_and_play : Elements → ℕ → Bool → ℕ → G.World → Option G.World
  unfolding link_source link_from
  link_and_play e sink is_fpfilter_enabled fpfilter_bin w = elim (link_source e w) [
    | none ↦ none
    | some w₁ ↦
        let (linked, w₂) =
          link_from G e.streammux (stream e sink is_fpfilter_enabled fpfilter_bin) w₁ in
        let nvvidconv_sink_pad = G.get_static_pad e.nvvidconv2 "sink" w₂ in
        let w₃ = G.connect nvvidconv_sink_pad after_filter_buffer_probe w₂ in
        if not linked
        then none
        else if nvvidconv_sink_pad == 0
        then none
        else some (G.set_state e.pipeline true w₃)
  ]

  -- From the info for the dynamic linking on; `none` is a return of -1.
  unfoldable pub set_up :
      {Loop : Type 0} → Elements → ℕ → Bool → ℕ → Loop → ℕ × G.World → Option (ℕ × App G.World Loop)
  unfolding add_elements link_and_play
  set_up e sink is_fpfilter_enabled loop main_loop (fpfilter_bin, w) =
      elim (link_and_play e sink is_fpfilter_enabled fpfilter_bin
        (add_elements e sink is_fpfilter_enabled fpfilter_bin w)) [
          | none ↦ none
          | some w' ↦ some (
            sink,
            record {
              pads = record { world = w'; probes = []; next_id = 1; copies = 0 };
              is_fpfilter_enabled = is_fpfilter_enabled;
              fpfilter_bin = fpfilter_bin;
              fp_filter_dynamic_link_info = record {
                main_element = fpfilter_bin;
                main_prev_element = e.nvvidconv1;
                main_prev_prev_element = e.primary_detector;
                main_next_element = e.nvvidconv2;
                pipeline = e.pipeline;
                loop = loop;
              };
              save_fpfilter_images = false;
              main_loop = main_loop;
            },
          )
        ]

module _ (K : KeyFiles) (G : Gst) {Loop : Type 0}
    (create_source_bin create_sink_bin : List ℕ → G.World → ℕ × G.World)
    (create_filter_elements_bin : G.World → Run (ℕ × G.World)) where
  -- From the sink on; `none` is a return of -1. `loop` is the pointer to the main loop, `unset` what an
  -- uninitialised variable of `get_fpfilter_status_from_cfg_file` holds.
  unfoldable pub assemble :
      Bool → ℕ → Loop → Elements → List ℕ → G.World → Run (Option (ℕ × App G.World Loop))
  unfolding create_filter set_up set_properties Option.bind
  assemble unset loop main_loop e out_name w =
      let (sink, w₁) = create_sink_bin out_name (set_properties G e w) in
      let is_fpfilter_enabled =
        get_fpfilter_status_from_cfg_file K unset "config/ds_fpfilter_config.txt" in
      create_filter G create_filter_elements_bin is_fpfilter_enabled w₁ >>= λ filter.
      done (Option.bind filter (set_up G e sink is_fpfilter_enabled loop main_loop))

  -- The arguments with the name of the program first; `none` is a return of -1. `strcpy` copies the
  -- first argument into 1024 bytes.
  unfoldable pub start :
      Bool → ℕ → Loop → List (List ℕ) → G.World → Run (Option (Running G.World Loop))
  unfolding create_elements assemble
  start unset loop main_loop (name ∷ input ∷ labels ∷ output ∷ rest) w =
      if leb 1024 (length input)
      then fault
      else elim (create_elements G create_source_bin input w) [
        | none ↦ done none
        | some (e, w₁) ↦ assemble unset loop main_loop e output w₁ >>= λ r. done (
            Option.map
              (λ (sink, app). record {
                elements = e;
                sink = sink;
                app = app;
                output_path = snprintf 1024 labels;
                source_info = input;
                pgie_unique_id = get_pgie_id_from_cfg_file K "config/ds_fpfilter_config.txt";
              })
              r)
      ]
  start unset loop main_loop argv w = done none
