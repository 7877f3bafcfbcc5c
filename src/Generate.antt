-- ===== src/Generate.antt =====
-- handle_generate of animate-platform/rpc_handlers.c. What the host answers is an argument: whether
-- fopen opens a file, what malloc gives, how many bytes fwrite takes, and whether `system` returns 0.
pub mod Frames
use pointerpro_animate.Base.{
  ℕ, zero, suc, ◌+◌, ◌-◌, Bool, not, Option, none, some, List, [], ◌∷◌, ◌++◌, ◌==◌, leb,
  if◌then◌else◌, take,
}
use pointerpro_animate.Text.{Text, codes, long_max, print_ulong}
use pointerpro_animate.Registry.{find_canvas_node, client_has_canvas_access}
use pointerpro_animate.Library.{Library}
use pointerpro_animate.Rpc.{
  Server, Output, opened, wrote, ran, ok, crash, Handler, ◌>>=◌, ◌>>◌, line, value_error,
  internal_error, respond, or_respond, ensure, read, output, get_registry, next_argument,
  handle_argument, positive, nonnegative,
}

-- `malloc size` is the memory's content, and `room frame` the number of bytes that fwrite takes of
-- this frame at most.
pub record Host : Type 0 where
  pub fopen : Text → Bool
  pub malloc : ℕ → Option Text
  pub room : ℕ → ℕ
  pub system : Text → Bool

-- snprintf into `size` bytes.
abbrev pub snprintf : ℕ → Text → Text
snprintf size text = take (size - 1) text

abbrev pub dat_path : Text → Text
dat_path filename = snprintf 512 (filename ++ codes ".dat")

abbrev pub mp4_path : Text → Text
mp4_path filename = snprintf 512 (filename ++ codes ".mp4")

abbrev pub log_path : Text → Text
log_path filename = snprintf 512 (filename ++ codes ".log")

unfoldable pub ffmpeg_cmd : (frame_rate width height : ℕ) → Text → Text
ffmpeg_cmd frame_rate width height filename = snprintf 2048 (
    codes "ffmpeg -y -r "
    ++ print_ulong frame_rate
    ++ codes " -f rawvideo -pix_fmt argb -s "
    ++ print_ulong width
    ++ codes "x"
    ++ print_ulong height
    ++ codes " -i "
    ++ dat_path filename
    ++ codes " -c:v libx264 -pix_fmt yuv420p "
    ++ mp4_path filename
    ++ codes " > "
    ++ log_path filename
    ++ codes " 2>&1")

abbrev pub data_failed : Text
data_failed = line (codes "0 -1")

abbrev pub video_failed : Text
video_failed = line (codes "0 0 -1")

abbrev pub all_written : Text
all_written = line (codes "0 0 0")

module _ (a : Library) (host : Host) where
  -- The loop over the frames, of which `count` are left; the increment of a frame number that is
  -- LONG_MAX is undefined.
  unfoldable pub write_frames :
      (count frame : ℕ) (canvas frame_rate frame_bytes : ℕ)
      → Text
      → Handler (Server a.State) (Unit {0})
  write_frames zero frame canvas frame_rate frame_bytes buffer = ok tt
  write_frames (suc count) frame canvas frame_rate frame_bytes buffer = do
    drawn ← read (a.generate_frame canvas frame frame_rate buffer)
    output (wrote (take (host.room frame) (take frame_bytes drawn)))
    ensure (leb frame_bytes (host.room frame)) data_failed
    if frame == long_max
        then (λ s. crash)
        else write_frames count (suc frame) canvas frame_rate frame_bytes drawn

  -- From the opening of the file on.
  unfoldable pub generate_video :
      (canvas start_frame end_frame frame_rate : ℕ) → Text → Handler (Server a.State) (Unit {0})
  unfolding write_frames
  generate_video canvas start_frame end_frame frame_rate filename = do
    ensure (host.fopen (dat_path filename)) data_failed
    output (opened (dat_path filename))
    frame_bytes ← read (a.frame_size_bytes canvas)
    ensure (not (frame_bytes == 0)) internal_error
    frame_buffer ← or_respond (host.malloc frame_bytes) internal_error
    write_frames (end_frame - start_frame + 1) start_frame canvas frame_rate frame_bytes
        frame_buffer
    width ← read (a.width canvas)
    height ← read (a.height canvas)
    output (ran (ffmpeg_cmd frame_rate width height filename))
    ensure (host.system (ffmpeg_cmd frame_rate width height filename)) video_failed
    respond all_written

  unfoldable pub handle_generate : (username saveptr : Text) → Handler (Server a.State) (Unit {0})
  unfolding generate_video
  handle_generate username saveptr = do
    (canvas_str, rest) ← next_argument saveptr
    (filename, rest) ← next_argument rest
    (start_str, rest) ← next_argument rest
    (end_str, rest) ← next_argument rest
    (framerate_str, rest) ← next_argument rest
    canvas_address ← or_respond (handle_argument canvas_str) value_error
    start_frame ← or_respond (nonnegative start_str) value_error
    end_frame ← or_respond (nonnegative end_str) value_error
    frame_rate ← or_respond (positive framerate_str) value_error
    ensure (leb start_frame end_frame) value_error
    r ← get_registry
    canvas_node ← or_respond (find_canvas_node canvas_address r.canvases) value_error
    ensure (client_has_canvas_access canvas_node username) value_error
    generate_video canvas_address start_frame end_frame frame_rate filename
