-- ===== src/Calls/Playback.antt =====
-- `PlaybackBuffer`: the audio that the bot has still to say. A sample is a value of any type with a
-- silent one; an array is the list of its samples.
pub mod Order
use flowhunt_voicebot.Base.{
  ℕ, zero, suc, ◌+◌, ◌-◌, ◌≤◌, ◌<◌, ◌≡◌, String, Bool, true, false, not, ◌&&◌, ◌||◌, Option, none,
  some, List, [], ◌∷◌, ◌++◌, take, drop, length, ltb, leb, if◌then◌else◌, is_some,
}
use flowhunt_voicebot.Base.Dict.{Dict}

abbrev pub Values : Type 0
Values = Dict String String

abbrev pub is_empty {ℓ} : {B : Type ℓ} → List B → Bool
is_empty [] = true
is_empty (x ∷ xs) = false

module _ (A : Type 0) where
  pub record PlaybackBuffer : Type 0 where
    pub queue : List (List A × Values)
    pub current : Option (List A)
    pub current_values : Values
    pub position : ℕ
    pub generation : ℕ
    pub playing : Bool

  pub record Packet : Type 0 where
    pub samples : List A
    pub started : Bool
    pub finished : Bool
    pub values : Values

module _ {A : Type 0} where
  unfoldable pub new_buffer : PlaybackBuffer A
  new_buffer = record {
    queue = [];
    current = none;
    current_values = [];
    position = 0;
    generation = 0;
    playing = false;
  }

  unfoldable pub is_active : PlaybackBuffer A → Bool
  is_active b = b.playing || (is_some b.current || not (is_empty b.queue))

  unfoldable pub interrupt : PlaybackBuffer A → Bool × PlaybackBuffer A
  unfolding is_active
  interrupt b = (
    is_active b,
    record {
      queue = [];
      current = none;
      current_values = [];
      position = 0;
      generation = b.generation + 1;
      playing = false;
    },
  )

  unfoldable pub enqueue : PlaybackBuffer A → List A → Values → ℕ × PlaybackBuffer A
  enqueue b audio values = (
    b.generation + 1,
    record b { queue = b.queue ++ ((audio, values) ∷ []); generation = b.generation + 1 },
  )

  -- The first test of `next_packet_with_metadata`.
  unfoldable pub begin : PlaybackBuffer A → PlaybackBuffer A × Bool
  begin b = elim b.current [
    | some c ↦ (b, false)
    | none ↦ elim b.queue [
      | [] ↦ (b, false)
      | (audio, values) ∷ rest ↦ (
        record b {
          queue = rest;
          current = some audio;
          current_values = values;
          position = 0;
          playing = true;
        },
        true,
      )
    ]
  ]

  -- The buffer behind an item that is played out.
  abbrev pub played_out : PlaybackBuffer A → PlaybackBuffer A
  played_out b = record b { current = none; current_values = []; position = 0; playing = false }

  module _ (silence : A) where
    abbrev pub silent : ℕ → List A
    silent zero = []
    silent (suc n) = silence ∷ silent n

    -- The rest of it, for the item that is played, if any.
    unfoldable pub play :
        PlaybackBuffer A → Option (List A) → ℕ → Bool → Packet A × PlaybackBuffer A
    play b none n started =
        (record { samples = silent n; started = started; finished = false; values = [] }, b)
    play b (some c) n started =
        let packet = take n (drop b.position c) in
        let padded = packet ++ silent (n - length packet) in
        let position = b.position + length packet in
        if ltb (length packet) n
        then (
          record {
            samples = padded;
            started = started;
            finished = true;
            values = b.current_values;
          },
          played_out b,
        )
        else if leb (length c) position
        then (
          record {
            samples = packet;
            started = started;
            finished = true;
            values = b.current_values;
          },
          played_out b,
        )
        else (
          record {
            samples = packet;
            started = started;
            finished = false;
            values = b.current_values;
          },
          record b { position = position },
        )

    -- `next_packet_with_metadata`
    unfoldable pub next_packet : PlaybackBuffer A → ℕ → Packet A × PlaybackBuffer A
    unfolding begin play
    next_packet b n = let (b', started) = begin b in play b' b'.current n started
