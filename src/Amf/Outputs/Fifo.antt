-- ===== src/Amf/Outputs/Fifo.antt =====
-- The ring is a queue of at most eight packets: first in, first out.
use driver_uu_remote.Base.{
  ℕ, zero, suc, ◌+◌, ◌-◌, ◌%◌, ◌≤◌, ◌<◌, ◌≡◌, ◌≢◌, refl, ap, ap₂, ◌∙◌, Bool, true, false, List, [],
  ◌∷◌, ◌++◌, Option, none, some, get_or, set, length, length-set, get_or-set_self, get_or-set_ne,
  ◌==◌, ==_iff, if◌then◌else◌, arith, map,
}
use driver_uu_remote.Amf.Results.{ok, eof, repeat}
use driver_uu_remote.Amf.Outputs.Ring.{
  BridgeBuffer, max_outputs, Outputs, component_queue_output, component_query_output,
}

-- The slots from `h` on, `n` of them.
unfoldable pub window : List (Option BridgeBuffer) → ℕ → ℕ → List (Option BridgeBuffer)
window slots h zero = []
window slots h (suc n) = get_or slots h none ∷ window slots ((h + 1) % max_outputs) n

abbrev pub contents : Outputs → List (Option BridgeBuffer)
contents o = window o.slots o.head o.count

-- The queue holds exactly these packets, oldest first, in eight slots.
pub record Queues (packets : List BridgeBuffer) (o : Outputs) : Type 0 where
  pub slots : length o.slots ≡ max_outputs
  pub head : o.head < max_outputs
  pub count : o.count ≡ length packets
  pub few : length packets ≤ max_outputs
  pub holds : contents o ≡ map some packets

add-mod-ne : (h k : ℕ) → h < 8 → k < 7 → (h + suc k) % 8 ≢ h
add-mod-ne h k p q = omega arith

window-set_out :
    (slots : List (Option BridgeBuffer)) (v : Option BridgeBuffer) (i n h : ℕ)
    → ((j : ℕ) → j < n → i ≢ (h + j) % 8)
    → h < 8
    → window (set slots i v) h n ≡ window slots h n
unfolding window
window-set_out slots v i zero h out k = refl
window-set_out slots v i (suc n) h out k =
    let here : i ≢ h = λ e. out 0 (omega arith) (omega arith) in
    ap₂ ◌∷◌ (get_or-set_ne slots i h v none here) (
      window-set_out slots v i n ((h + 1) % 8) (λ j lt e. out (suc j) (omega arith) (omega arith))
        (omega arith))

window-append :
    (slots : List (Option BridgeBuffer)) (n h : ℕ)
    → h < 8
    → window slots h (suc n) ≡ window slots h n ++ (get_or slots ((h + n) % 8) none ∷ [])
unfolding window
window-append slots zero h k = let e : (h + 0) % 8 ≡ h = omega arith in rw e
window-append slots (suc n) h k =
    let e : ((h + 1) % 8 + n) % 8 ≡ (h + suc n) % 8 = omega arith in
    ap (λ xs. get_or slots h none ∷ xs)
      (window-append slots n ((h + 1) % 8) (omega arith)
        ∙ ap (λ m. window slots ((h + 1) % 8) n ++ (get_or slots m none ∷ [])) e)

map-append_one :
    (xs : List BridgeBuffer) (x : BridgeBuffer)
    → map some xs ++ (some x ∷ []) ≡ map some (xs ++ (x ∷ []))
map-append_one [] x = refl
map-append_one (y ∷ xs) x = rw (map-append_one xs x)

length-append_one :
    (xs : List BridgeBuffer) (x : BridgeBuffer) → length (xs ++ (x ∷ [])) ≡ length xs + 1
length-append_one [] x = omega arith
length-append_one (y ∷ xs) x = omega (arith, length-append_one xs x)

-- With room for one more, a packet joins the queue at its end.
pub queue_output-append :
    (packets : List BridgeBuffer) (buffer : BridgeBuffer) (o : Outputs)
    → Queues packets o
    → length packets < max_outputs
    → ((component_queue_output o buffer).0 ≡ true)
      × Queues (packets ++ (buffer ∷ [])) (component_queue_output o buffer).1
unfolding component_queue_output window
queue_output-append packets buffer o q room =
    let open' : (o.count == max_outputs) ≡ false = not_full o.count (omega (arith, q.count)) in
    let place = (o.head + o.count) % max_outputs in
    let more = length-append_one packets buffer in
    let next : o.count + 1 ≡ suc o.count = omega arith in
    rw open' (
      refl,
      record {
        slots = length-set o.slots place (some buffer) ∙ q.slots;
        head = q.head;
        count = omega (arith, q.count);
        few = omega arith;
        holds = rw next (
            window-append (set o.slots place (some buffer)) o.count o.head q.head
            ∙ ap₂ (λ xs x. xs ++ (x ∷ []))
                (window-set_out o.slots (some buffer) place o.count o.head
                    (λ j lt. omega (arith, q.head, q.count)) q.head
                  ∙ q.holds)
                (get_or-set_self o.slots place (some buffer) none (omega (arith, q.slots)))
            ∙ map-append_one packets buffer);
      },
    )
  where
    not_full : (n : ℕ) → n < max_outputs → (n == max_outputs) ≡ false
    not_full n h = ground arith

-- A full queue refuses the packet and stays as it is.
pub queue_output-full :
    (packets : List BridgeBuffer) (buffer : BridgeBuffer) (o : Outputs)
    → Queues packets o
    → length packets ≡ max_outputs
    → component_queue_output o buffer ≡ (false, o)
unfolding component_queue_output
queue_output-full packets buffer o q full =
    let e : (o.count == max_outputs) ≡ true = (==_iff _ _).1 (q.count ∙ full) in rw e

-- The oldest packet is handed out and leaves the queue.
pub query_output-cons :
    (draining : Bool) (first : BridgeBuffer) (packets : List BridgeBuffer) (o : Outputs)
    → Queues (first ∷ packets) o
    → let (result, out, o') = component_query_output draining o in
      (result ≡ ok) × (out ≡ some first) × Queues packets o'
unfolding component_query_output window
query_output-cons draining first packets o q =
    let nz : (o.count == 0) ≡ false = not_empty o.count (omega (arith, q.count)) in
    let n : o.count ≡ suc (length packets) = q.count in
    let split = n_window o (length packets) n ∙ q.holds in
    rw nz (
      refl,
      ground (arith, split),
      record {
        slots = length-set o.slots o.head none ∙ q.slots;
        head = omega arith;
        count = omega (arith, q.count);
        few = omega (arith, q.few);
        holds =
            let e : o.count - 1 ≡ length packets = omega (arith, q.count) in
            rw e (
              window-set_out o.slots none o.head (length packets) ((o.head + 1) % 8)
                (λ j lt. omega (arith, q.head, q.few)) (omega arith)
              ∙ ground (arith, split));
      },
    )
  where
    not_empty : (n : ℕ) → 0 < n → (n == 0) ≡ false
    not_empty n h = ground arith

    n_window :
        (o : Outputs) (m : ℕ)
        → o.count ≡ suc m
        → get_or o.slots o.head none ∷ window o.slots ((o.head + 1) % 8) m
          ≡ window o.slots o.head o.count
    n_window o m e = rw e

-- An empty queue hands nothing out, stays as it is, and tells whether the stream is at its end.
pub query_output-nil :
    (draining : Bool) (o : Outputs)
    → Queues [] o
    → component_query_output draining o ≡ (if draining then eof else repeat, none, o)
unfolding component_query_output
query_output-nil draining o q = let e : (o.count == 0) ≡ true = (==_iff _ _).1 q.count in rw e
