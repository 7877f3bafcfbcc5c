-- ===== src/Animate/Layers.antt =====
-- The functions of libanimate/animate.c on a canvas and its list of placements. The head of the
-- list is the top layer. `fresh` is what malloc returns.
use pointerpro_animate.Base.{
  ℕ, zero, suc, ◌*◌, ◌%◌, ◌&&◌, ◌||◌, Option, none, some, ◌==◌, if◌then◌else◌,
}
use pointerpro_animate.Base.Int.{ℤ, pos}
use pointerpro_animate.Animate.{
  Ptr, null, Placement, Store, M, pure, ◌>>=◌, ◌>>◌, put_placement, put_canvas, load_placement,
  load_canvas, set_next, set_previous, set_head, set_tail, count_up, count_down, free_placement,
  free_canvas, size_mod, at,
}

unfoldable pub create_canvas : Ptr → (height width background_color : ℕ) → M Ptr
create_canvas fresh height width background_color s =
    if fresh == null
    then some (null, s)
    else some (
      fresh,
      put_canvas fresh
          (some (record {
            width = width;
            height = height;
            background_color = background_color;
            head = null;
            tail = null;
          }))
          s,
    )

-- The structure as malloc and the assignments above the branch leave it.
abbrev pub new_placement : Ptr → Ptr → ℤ → ℤ → Placement
new_placement canvas sprite x y = record {
  sprite = sprite;
  canvas = canvas;
  x = x;
  y = y;
  vx = pos 0;
  vy = pos 0;
  ax = pos 0;
  ay = pos 0;
  next = null;
  previous = null;
}

unfoldable pub place_sprite : Ptr → (canvas sprite : Ptr) → ℤ → ℤ → M Ptr
unfolding load_canvas set_next set_previous set_head set_tail count_up
place_sprite fresh canvas sprite x y =
    if (canvas == null) || (sprite == null)
    then pure null
    else if fresh == null
    then pure null
    else do
      count_up sprite
      (λ s. some (tt, put_placement fresh (some (new_placement canvas sprite x y)) s))
      c ← load_canvas canvas
      if c.head == null
          then (do set_head canvas fresh; set_tail canvas fresh; set_next fresh null; pure fresh)
          else (do
            set_head canvas fresh
            set_next fresh c.head
            set_previous c.head fresh
            pure fresh)

-- previous_node->next = next_node; next_node->previous = previous_node
unfoldable pub join : Ptr → Ptr → M (Unit {0})
unfolding set_next set_previous
join previous_node next_node = do
  set_next previous_node next_node
  set_previous next_node previous_node

-- The node behind `p` takes its place at the end of the list.
unfoldable pub join_tail : Ptr → Ptr → M (Unit {0})
unfolding set_next set_tail
join_tail canvas previous_node = do set_next previous_node null; set_tail canvas previous_node

unfoldable pub join_head : Ptr → Ptr → M (Unit {0})
unfolding set_previous set_head
join_head canvas next_node = do set_previous next_node null; set_head canvas next_node

-- What stands behind the first branch of animate_placement_up.
link_up : Ptr → Ptr → Ptr → M (Unit {0})
unfolding set_next set_previous set_head load_placement
link_up p canvas previous_node = do
  set_next p previous_node
  q ← load_placement previous_node
  set_previous previous_node p
  if q.previous == null
      then (do set_previous p null; set_head canvas p)
      else (do set_previous p q.previous; set_next q.previous p)

unfoldable pub placement_up : Ptr → M (Unit {0})
unfolding load_placement join join_tail link_up
placement_up p = if p == null then pure tt else do
  n ← load_placement p
  if n.previous == null
      then pure tt
      else if n.next == null
      then (do join_tail n.canvas n.previous; link_up p n.canvas n.previous)
      else (do join n.previous n.next; link_up p n.canvas n.previous)

link_down : Ptr → Ptr → Ptr → M (Unit {0})
unfolding set_next set_previous set_tail load_placement
link_down p canvas next_node = do
  set_previous p next_node
  q ← load_placement next_node
  set_next next_node p
  if q.next == null
      then (do set_next p null; set_tail canvas p)
      else (do set_next p q.next; set_previous q.next p)

-- The first test is on the head: of a list of one placement, whose next_node is NULL, too.
unfoldable pub placement_down : Ptr → M (Unit {0})
unfolding load_placement join join_head link_down
placement_down p = if p == null then pure tt else do
  n ← load_placement p
  if n.previous == null
      then (do join_head n.canvas n.next; link_down p n.canvas n.next)
      else if n.next == null
      then pure tt
      else (do join n.previous n.next; link_down p n.canvas n.next)

unfoldable pub link_top : Ptr → Ptr → Ptr → M (Unit {0})
unfolding set_next set_previous set_head
link_top p canvas previous_head = do
  set_head canvas p
  set_next p previous_head
  set_previous p null
  set_previous previous_head p

unfoldable pub placement_top : Ptr → M (Unit {0})
unfolding load_placement load_canvas join join_tail link_top
placement_top p = if p == null then pure tt else do
  n ← load_placement p
  c ← load_canvas n.canvas
  if p == c.head
      then pure tt
      else if n.next == null
      then (do join_tail n.canvas n.previous; link_top p n.canvas c.head)
      else (do join n.previous n.next; link_top p n.canvas c.head)

unfoldable pub link_bottom : Ptr → Ptr → Ptr → M (Unit {0})
unfolding set_next set_previous set_tail
link_bottom p canvas previous_tail = do
  set_tail canvas p
  set_previous p previous_tail
  set_next p null
  set_next previous_tail p

unfoldable pub placement_bottom : Ptr → M (Unit {0})
unfolding load_placement load_canvas join join_head link_bottom
placement_bottom p = if p == null then pure tt else do
  n ← load_placement p
  c ← load_canvas n.canvas
  if p == c.tail
      then pure tt
      else if n.previous == null
      then (do join_head n.canvas n.next; link_bottom p n.canvas c.tail)
      else (do join n.previous n.next; link_bottom p n.canvas c.tail)

-- The four cases of animate_destroy_placement, by the neighbours of the node.
unfoldable pub unlink : (canvas previous_placement next_placement : Ptr) → M (Unit {0})
unfolding join set_head set_tail set_next set_previous
unlink canvas previous_placement next_placement =
    if (previous_placement == null) && (next_placement == null)
    then (do set_head canvas null; set_tail canvas null)
    else if previous_placement == null
    then (do set_head canvas next_placement; set_previous next_placement null)
    else if next_placement == null
    then (do set_tail canvas previous_placement; set_next previous_placement null)
    else join previous_placement next_placement

unfoldable pub destroy_placement : Ptr → M (Unit {0})
unfolding load_placement count_down free_placement
destroy_placement p = if p == null then pure tt else do
  n ← load_placement p
  if n.canvas == null
      then free_placement p
      else (do count_down n.sprite; unlink n.canvas n.previous n.next; free_placement p)

unfoldable pub set_animation_params : Ptr → (vx vy ax ay : ℤ) → M (Unit {0})
set_animation_params p vx vy ax ay s =
    if p == null
    then some (tt, s)
    else at p s.placements
        λ n. some (tt, put_placement p (some (record n { vx = vx; vy = vy; ax = ax; ay = ay })) s)

-- The while loop of animate_destroy_canvas on fuel; running out of it is a fault too.
unfoldable pub destroy_loop : ℕ → Ptr → M (Unit {0})
unfolding load_placement count_down free_placement
destroy_loop zero current s = none
destroy_loop (suc fuel) current s =
    let round : Option (Unit {0} × Store) =
      (do
        n ← load_placement current
        count_down n.sprite
        free_placement current
        destroy_loop fuel n.next)
        s in
    if current == null then some (tt, s) else round

unfoldable pub destroy_canvas : ℕ → Ptr → M (Unit {0})
unfolding load_canvas free_canvas
destroy_canvas fuel canvas =
    if canvas == null
    then pure tt
    else do c ← load_canvas canvas; destroy_loop fuel c.head; free_canvas canvas

-- sizeof(color_t) is 4; the product is of type size_t.
unfoldable pub frame_size_bytes : Ptr → M ℕ
unfolding load_canvas
frame_size_bytes canvas =
    if canvas == null
    then pure 0
    else do c ← load_canvas canvas; pure ((c.width * c.height * 4) % size_mod)
