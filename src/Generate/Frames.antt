-- ===== src/Generate/Frames.antt =====
-- What handle_generate writes: the frames, in order, and the command that makes the video.
use pointerpro_animate.Base.{ℕ, zero, suc, ◌≤◌, ◌≡◌, some, List, [], ◌∷◌, length}
use pointerpro_animate.Text.{Text}
use pointerpro_animate.Library.{Library}
use pointerpro_animate.Rpc.{Server, Output, wrote}
use pointerpro_animate.Generate.{Host}

-- The pictures of `count` frames from `first` on.
unfoldable pub pictures : (ℕ → Text) → (count first : ℕ) → List Output
pictures picture zero first = []
pictures picture (suc count) first = wrote (picture first) ∷ pictures picture count (suc first)

-- Into a buffer of the right size, whatever it held, the library draws each picture from the first to
-- the last, and each has that size.
abbrev pub Draws :
    (a : Library)
    → (canvas frame_rate frame_bytes first last : ℕ) → (picture : ℕ → Text) → Server a.State
    → Type 0
Draws a canvas frame_rate frame_bytes first last picture s =
    (frame : ℕ) (buf : Text)
    → first ≤ frame
    → frame ≤ last
    → length buf ≡ frame_bytes
    → (a.generate_frame canvas frame frame_rate buf s.library ≡ some (picture frame))
      × (length (picture frame) ≡ frame_bytes)

module _ (a : Library) (host : Host) (canvas frame_rate frame_bytes : ℕ) (picture : ℕ → Text)
    (s : Server a.State) (first last : ℕ)
    (draws : Draws a canvas frame_rate frame_bytes first last picture s)
    (room : (frame : ℕ) → frame_bytes ≤ host.room frame) where
  abbrev with_outputs : List Output → Server a.State
  with_outputs os = record s { outputs = os }
