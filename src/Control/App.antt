-- ===== src/Control/App.antt =====
-- The globals that the prompts change, and the functions that change them. A function that is mutex
-- protected in the source is one step here.
use deepstream_fpfilter.Prelude.{
  ℕ, zero, suc, Bool, true, false, ◌==◌, if◌then◌else◌, Run, done, ◌>>=◌,
}
use deepstream_fpfilter.Control.MainLoop.{MainLoop}
use deepstream_fpfilter.Pipeline.Gst.{Gst}
use deepstream_fpfilter.Pipeline.Link.{
  LinkUnlinkInfo, Pads, add_element_to_pipeline, remove_element_from_pipeline,
}

pub record App (World Loop : Type 0) : Type 0 where
  pub pads : Pads World
  pub is_fpfilter_enabled : Bool
  pub fpfilter_bin : ℕ
  pub fp_filter_dynamic_link_info : LinkUnlinkInfo
  pub save_fpfilter_images : Bool
  pub main_loop : Loop

module _ {World Loop : Type 0} where
  unfoldable pub get_fpfilter_images_save_status : App World Loop → Bool
  get_fpfilter_images_save_status a = a.save_fpfilter_images

  unfoldable pub enable_fpfilter_images_save : App World Loop → App World Loop
  enable_fpfilter_images_save a = record a { save_fpfilter_images = true }

  unfoldable pub disable_fpfilter_images_save : App World Loop → App World Loop
  disable_fpfilter_images_save a = record a { save_fpfilter_images = false }

  -- The callback of a timer; the result FALSE takes the timer off the main loop.
  unfoldable pub disable_fpfilter_images_save_duration : App World Loop → Bool × App World Loop
  unfolding disable_fpfilter_images_save
  disable_fpfilter_images_save_duration a = (false, disable_fpfilter_images_save a)

module _ (M : MainLoop) {World : Type 0} where
  unfoldable pub enable_fpfilter_images_save_duration : ℕ → App World M.Loop → App World M.Loop
  unfolding enable_fpfilter_images_save
  enable_fpfilter_images_save_duration duration_ms a =
      let b = enable_fpfilter_images_save a in
      record b { main_loop = M.timeout_add duration_ms b.main_loop }

  -- `n` calls of the callback, one after the other.
  unfoldable pub call_back : ℕ → App World M.Loop → App World M.Loop
  unfolding disable_fpfilter_images_save_duration
  call_back zero a = a
  call_back (suc n) a = call_back n (disable_fpfilter_images_save_duration a).1

  -- A millisecond of the main loop, with the result that the callback returns.
  unfoldable pub tick : App World M.Loop → App World M.Loop
  unfolding disable_fpfilter_images_save_duration call_back
  tick a =
      let (calls, main_loop) = M.pass (disable_fpfilter_images_save_duration a).0 a.main_loop in
      call_back calls (record a { main_loop = main_loop })

module _ (G : Gst) {Loop : Type 0} where
  -- `enable_fpfilter` once the bin is there. The result of `add_element_to_pipeline` is not looked at.
  unfoldable pub link_in : ℕ → App G.World Loop → App G.World Loop
  unfolding disable_fpfilter_images_save add_element_to_pipeline
  link_in bin a =
      let info : LinkUnlinkInfo = record (a.fp_filter_dynamic_link_info) { main_element = bin } in
      let a₁ = disable_fpfilter_images_save (record a { fp_filter_dynamic_link_info = info }) in
      let (_, pads) = add_element_to_pipeline G info a₁.pads in
      record a₁ { pads = pads; is_fpfilter_enabled = true }

  -- `disable_fpfilter` where the filter is enabled.
  unfoldable pub link_out : App G.World Loop → App G.World Loop
  unfolding disable_fpfilter_images_save remove_element_from_pipeline
  link_out a =
      let a₁ = disable_fpfilter_images_save (record a { is_fpfilter_enabled = false }) in
      let (_, pads) = remove_element_from_pipeline G a.fp_filter_dynamic_link_info a₁.pads in
      record a₁ {
        pads = pads;
        fpfilter_bin = 0;
        fp_filter_dynamic_link_info = record (a.fp_filter_dynamic_link_info) { main_element = 0 };
      }

  -- `enable_fpfilter` behind the making of the bin; NULL leaves the filter disabled.
  unfoldable pub with_bin : App G.World Loop → ℕ × G.World → App G.World Loop
  unfolding link_in
  with_bin a (bin, world) =
      let a₁ : App G.World Loop = record a {
        pads = record (a.pads) { world = world };
        fpfilter_bin = bin;
      } in
      if bin == 0 then a₁ else link_in bin a₁

  unfoldable pub disable_fpfilter : App G.World Loop → App G.World Loop
  unfolding link_out
  disable_fpfilter a = if a.is_fpfilter_enabled then link_out a else a

module _ (G : Gst) (create_filter_elements_bin : G.World → Run (ℕ × G.World)) {Loop : Type 0} where
  unfoldable pub enable_fpfilter : App G.World Loop → Run (App G.World Loop)
  unfolding with_bin
  enable_fpfilter a =
      if a.is_fpfilter_enabled
      then done a
      else (create_filter_elements_bin a.pads.world >>= λ r. done (with_bin G a r))
