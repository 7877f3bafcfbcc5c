-- ===== src/Dispatch/Videos.antt =====
-- The invariant AllHaveMemory through handle_generate and handle_barrier.
use pointerpro_animate.Base.{ℕ, zero, suc, ◌+◌, ◌-◌, ◌<◌, Option, List, ◌==◌, arith, leb, leb→le}
use pointerpro_animate.Text.{Text, long_max}
use pointerpro_animate.Session.{Session}
use pointerpro_animate.Registry.{CanvasNode, find_canvas_node}
use pointerpro_animate.Registry.All.{find-All, update-All}
use pointerpro_animate.Library.{Library}
use pointerpro_animate.Rpc.{nonnegative}
use pointerpro_animate.Rpc.After.{
  keep_bind, keep_get, keep_put, keep_or, keep_ensure, keep_respond, keep_argument, keep_if_eq,
  keep_read, keep_output, keep_crash, keep_or_eq, keep_argument_eq, keep_ensure_eq, keep_ok,
}
use pointerpro_animate.Rpc.Room.{HasMemory}
use pointerpro_animate.Barrier.{handle_barrier}
use pointerpro_animate.Generate.{Host, write_frames, generate_video, handle_generate}
use pointerpro_animate.Dispatch.Faults.{Fault, asks}
use pointerpro_animate.Dispatch.Handlers.{KeepsAll}

counted :
    (n : CanvasNode) (k : ℕ) → HasMemory n → HasMemory (record n { barrier_arrived_count = k })
counted n k (v, full) = (
  record {
    owner_apart = v.owner_apart;
    distinct = v.distinct;
    in_memory = v.in_memory;
    in_capacity = v.in_capacity;
    referenced = v.referenced;
    bounded = v.bounded;
  },
  full,
)

module _ (a : Library) (users : Option Text) (username saveptr : Text) where
  write_frames-KeepsAll :
      (host : Host) (canvas frame_rate frame_bytes count frame : ℕ) (buffer : Text)
      → (long_max < frame + count → Fault a users saveptr)
      → KeepsAll a users username saveptr
          (write_frames a host count frame canvas frame_rate frame_bytes buffer)
  unfolding write_frames
  write_frames-KeepsAll host canvas frame_rate frame_bytes zero frame buffer late = keep_ok tt
  write_frames-KeepsAll host canvas frame_rate frame_bytes (suc count) frame buffer late =
      keep_bind (keep_read _ (λ l e. Fault.generate_frame _ _ _ _ l e)) λ drawn.
        keep_bind (keep_output _) λ _. keep_bind (keep_ensure _ _) λ _.
          keep_if_eq (frame == long_max) (λ last. keep_crash (late (ground arith)))
            λ more.
              write_frames-KeepsAll host canvas frame_rate frame_bytes count (suc frame) drawn
                λ h. late (omega arith)

  video-KeepsAll :
      (host : Host) (canvas start_frame end_frame frame_rate : ℕ) (filename : Text)
      → (long_max < start_frame + (end_frame - start_frame + 1) → Fault a users saveptr)
      → KeepsAll a users username saveptr
          (generate_video a host canvas start_frame end_frame frame_rate filename)
  unfolding generate_video
  video-KeepsAll host canvas start_frame end_frame frame_rate filename late =
      keep_bind (keep_ensure _ _) λ _. keep_bind (keep_output _) λ _.
        keep_bind (keep_read _ (λ l e. Fault.frame_size_bytes _ l e)) λ frame_bytes.
          keep_bind (keep_ensure _ _) λ _. keep_bind (keep_or _ _) λ buffer.
            keep_bind
              (write_frames-KeepsAll host canvas frame_rate frame_bytes
                (end_frame - start_frame + 1) start_frame buffer late)
              λ _. keep_bind (keep_read _ (λ l e. Fault.width _ l e)) λ width.
                keep_bind (keep_read _ (λ l e. Fault.height _ l e)) λ height.
                  keep_bind (keep_output _) λ _. keep_bind (keep_ensure _ _) λ _. keep_respond _

  pub generate-KeepsAll :
      (host : Host) → KeepsAll a users username saveptr (handle_generate a host username saveptr)
  unfolding handle_generate
  generate-KeepsAll host = keep_argument_eq _ _ λ c c_rest c_token.
      keep_argument_eq _ _ λ f f_rest f_token. keep_argument_eq _ _ λ b b_rest b_token.
        keep_argument_eq _ _ λ e e_rest e_token. keep_bind (keep_argument _) λ rate.
          keep_bind (keep_or _ _) λ canvas. keep_bind (keep_or _ _) λ start_frame.
            keep_or_eq (nonnegative e) _ λ end_frame e_value. keep_bind (keep_or _ _) λ frame_rate.
              keep_ensure_eq (leb start_frame end_frame) _ λ ordered. keep_get λ r v.
                keep_bind (keep_or _ _) λ n. keep_bind (keep_ensure _ _) λ _.
                  video-KeepsAll host canvas start_frame end_frame frame_rate f λ late.
                    Fault.last_frame (
                      asks c_token f_token b_token e_token e_value
                        (omega (arith, leb→le _ _ ordered, late)))

  pub barrier-KeepsAll :
      (sessions : List Session)
      → KeepsAll a users username saveptr (handle_barrier sessions username saveptr)
  unfolding handle_barrier
  barrier-KeepsAll sessions = keep_bind (keep_argument _) λ h. keep_bind (keep_or _ _) λ address.
      keep_get λ r v. keep_or_eq (find_canvas_node address r.canvases) _ λ n found.
        keep_bind (keep_ensure _ _) λ _.
          keep_bind
            (keep_put _ (
              update-All HasMemory address _ r.canvases
                (counted n _ (find-All HasMemory address r.canvases v found)) v))
            λ _. keep_ok _
