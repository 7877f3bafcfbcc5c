-- ===== src/Tests/Servers.antt =====
-- A server whose library is libanimate on a counter: user "alice" owns the canvas 5, which "bob"
-- shares; sprites are only counted.
use pointerpro_animate.Base.{
  ℕ, ◌+◌, ◌≡◌, refl, Bool, true, false, ◌||◌, none, some, List, [], ◌∷◌, arith, ◌==◌, if◌then◌else◌,
  replicate,
}
use pointerpro_animate.Text.{Text, codes, same, strtok, strtoull}
use pointerpro_animate.Registry.{CanvasNode, find_canvas_node, is_shared, client_has_canvas_access}
use pointerpro_animate.Registry.Lookup.{AreUnique}
use pointerpro_animate.Library.{Library}
use pointerpro_animate.Rpc.{Server, handle_argument}
use pointerpro_animate.Rpc.Nodes.{NodeIsValid}

abbrev pub has : ℕ → List ℕ → Bool
has a [] = false
has a (x ∷ xs) = (x == a) || has a xs

abbrev pub without : ℕ → List ℕ → List ℕ
without a [] = []
without a (x ∷ xs) = if x == a then xs else x ∷ without a xs

-- Its state is the next address and the canvases that exist.
abbrev pub counter : Library
counter = record {
  State = ℕ × List ℕ;
  create_canvas = λ height width color s. some (s.0, (s.0 + 1, s.0 ∷ s.1));
  destroy_canvas = λ c s. if has c s.1 then some (tt, (s.0, without c s.1)) else none;
  create_sprite = λ path s. some (s.0, (s.0 + 1, s.1));
  create_rectangle = λ width height color filled s. some (s.0, (s.0 + 1, s.1));
  create_circle = λ radius color filled s. some (s.0, (s.0 + 1, s.1));
  destroy_sprite = λ sprite s. some (true, s);
  place_sprite = λ canvas sprite x y s. some (s.0, (s.0 + 1, s.1));
  placement_up = λ p s. some (tt, s);
  placement_down = λ p s. some (tt, s);
  placement_top = λ p s. some (tt, s);
  placement_bottom = λ p s. some (tt, s);
  destroy_placement = λ p s. some (tt, s);
  set_animation_params = λ p vx vy ax ay s. some (tt, s);
  frame_size_bytes = λ canvas s. some 4;
  generate_frame = λ canvas frame frame_rate buf s. some (replicate 4 frame);
  width = λ canvas s. some 1;
  height = λ canvas s. some 1;
}

abbrev pub alice : Text
alice = codes "alice"

abbrev pub bob : Text
bob = codes "bob"

abbrev pub carol : Text
carol = codes "carol"

abbrev pub shared_node : CanvasNode
shared_node = record {
  canvas_handle = 5;
  owner_username = alice;
  shared_usernames = bob ∷ [];
  shared_capacity = 4;
  allocated = 4;
  ref_count = 2;
  barrier_arrived_count = 0;
}

abbrev pub server_with : CanvasNode → Server counter.State
server_with n = record {
  library = (9, 5 ∷ []);
  registry = record {
    canvases = n ∷ [];
    sprites = [];
    placements = record { placement_handle = 7; canvas_handle = 5 } ∷ [];
  };
  outputs = [];
}

abbrev pub server : Server counter.State
server = server_with shared_node

pub shared_node-NodeIsValid : NodeIsValid shared_node
unfolding is_shared same
shared_node-NodeIsValid = record {
  owner_apart = refl;
  distinct = (refl, tt);
  in_memory = omega arith;
  in_capacity = omega arith;
  referenced = omega arith;
  bounded = omega arith;
}

abbrev pub last_node : CanvasNode
last_node = record shared_node { shared_usernames = []; ref_count = 1 }

pub last_node-NodeIsValid : NodeIsValid last_node
unfolding is_shared same
last_node-NodeIsValid = record {
  owner_apart = refl;
  distinct = tt;
  in_memory = omega arith;
  in_capacity = omega arith;
  referenced = omega arith;
  bounded = omega arith;
}

abbrev pub five : Text
five = codes "5"

pub five_token : strtok five ≡ (some five, [])
unfolding strtok
five_token = refl

pub five_handle : handle_argument five ≡ some 5
unfolding handle_argument strtoull
five_handle = refl

pub is_found : (n : CanvasNode) → n.canvas_handle ≡ 5 → find_canvas_node 5 (n ∷ []) ≡ some n
unfolding find_canvas_node
is_found n e = ground arith

pub is_alone : AreUnique (shared_node ∷ [])
unfolding find_canvas_node
is_alone = (refl, tt)

pub last_alone : AreUnique (last_node ∷ [])
unfolding find_canvas_node
last_alone = (refl, tt)

pub bob_access : client_has_canvas_access shared_node bob ≡ true
unfolding client_has_canvas_access same
bob_access = refl

pub alice_access : client_has_canvas_access shared_node alice ≡ true
unfolding client_has_canvas_access same
alice_access = refl

pub alice_last_access : client_has_canvas_access last_node alice ≡ true
unfolding client_has_canvas_access same
alice_last_access = refl

pub carol_no_access : client_has_canvas_access shared_node carol ≡ false
unfolding client_has_canvas_access same
carol_no_access = refl

pub alice_not_bob : same alice bob ≡ false
unfolding same
alice_not_bob = refl

pub alice_owns : same alice alice ≡ true
unfolding same
alice_owns = refl

pub bob_shares : is_shared bob (bob ∷ []) ≡ true
unfolding is_shared same
bob_shares = refl
