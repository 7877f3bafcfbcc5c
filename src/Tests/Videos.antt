-- ===== src/Tests/Videos.antt =====
-- User "alice" generates the frames 0 to 2 of the canvas 5, at 25 frames each second.
use pointerpro_animate.Base.{true, some, replicate}
use pointerpro_animate.Text.{Text, codes, long_max}
use pointerpro_animate.Generate.{Host}

abbrev pub host : Host
host = record {
  fopen = λ path. true;
  malloc = λ size. some (replicate size 0);
  room = λ frame. 4;
  system = λ command. true;
}

abbrev arguments : Text
arguments = codes "5 film 0 2 25"
