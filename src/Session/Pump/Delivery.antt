-- ===== src/Session/Pump/Delivery.antt =====
-- Every chunk of output reaches the terminal, and the end of the output is never lost.
use scshell.Base.{
  ℕ, zero, suc, ◌+◌, ◌≤◌, ◌<◌, true, false, List, [], ◌∷◌, ◌++◌, map, ◌≡◌, refl, sym, ap, ◌∙◌,
  arith, Bytes, length, append_nil, append_assoc,
}
use scshell.Session.Pump.{
  Message, bytes, eof, Act, feed, dispatch, draw, take_code, drain, finish_round, pump,
}

-- The chunks that the terminal was fed.
unfoldable pub fed : List Act → List Bytes
fed [] = []
fed (feed buf ∷ acts) = buf ∷ fed acts
fed (dispatch ∷ acts) = fed acts
fed (draw ∷ acts) = fed acts
fed (take_code ∷ acts) = fed acts

-- How often the block at the end of the output was run.
unfoldable pub codes : List Act → ℕ
codes [] = 0
codes (take_code ∷ acts) = suc (codes acts)
codes (feed buf ∷ acts) = codes acts
codes (dispatch ∷ acts) = codes acts
codes (draw ∷ acts) = codes acts

-- The channel: some chunks, the end of the output, and whatever else.
abbrev pub channel : List Bytes → List Message → List Message
channel chunks others = map bytes chunks ++ eof ∷ others

pub fed-append : (xs ys : List Act) → fed (xs ++ ys) ≡ fed xs ++ fed ys
unfolding fed
fed-append [] ys = refl
fed-append (feed buf ∷ xs) ys = ap (◌∷◌ buf) (fed-append xs ys)
fed-append (dispatch ∷ xs) ys = fed-append xs ys
fed-append (draw ∷ xs) ys = fed-append xs ys
fed-append (take_code ∷ xs) ys = fed-append xs ys

pub codes-append : (xs ys : List Act) → codes (xs ++ ys) ≡ codes xs + codes ys
unfolding codes
codes-append [] ys = omega arith
codes-append (feed buf ∷ xs) ys = codes-append xs ys
codes-append (dispatch ∷ xs) ys = codes-append xs ys
codes-append (draw ∷ xs) ys = codes-append xs ys
codes-append (take_code ∷ xs) ys = omega (arith, codes-append xs ys)

-- A drain stops in front of the end of the output, or has met it.
data Drained (k : ℕ) (chunks : List Bytes) (others : List Message) : Type 0 where
  met :
      (acts : List Act)
      → drain k (channel chunks others) ≡ (acts, true, others)
      → fed acts ≡ chunks
      → codes acts ≡ 0
      → Drained k chunks others
  stopped :
      (acts : List Act) (later : List Bytes)
      → drain k (channel chunks others) ≡ (acts, false, channel later others)
      → fed acts ++ later ≡ chunks
      → codes acts ≡ 0
      → length later ≤ length chunks
      → Drained k chunks others

drain-Drained : (k : ℕ) (chunks : List Bytes) (others : List Message) → Drained k chunks others
unfolding drain fed codes
drain-Drained zero chunks others = stopped [] chunks refl refl refl (omega arith)
drain-Drained (suc n) [] others = met [] refl refl refl
drain-Drained (suc n) (c ∷ chunks) others = elim (drain-Drained n chunks others) [
  | met acts e f k ↦ met (feed c ∷ acts) (rw e refl) (ap (◌∷◌ c) f) k
  | stopped acts later e f k short ↦
      stopped (feed c ∷ acts) later (rw e refl) (ap (◌∷◌ c) f) k (omega arith)
]

-- All chunks were fed in their order, then a last frame was drawn and the end was handled, once.
pub record Delivered (chunks : List Bytes) (acts : List Act) : Type 0 where
  pub front : List Act
  pub split : acts ≡ front ++ draw ∷ take_code ∷ []
  pub all_fed : fed front ≡ chunks
  pub once : codes front ≡ 0

one_round :
    (c : Bytes) (acts next front : List Act)
    → next ≡ front ++ draw ∷ take_code ∷ []
    → feed c ∷ (acts ++ dispatch ∷ draw ∷ next)
      ≡ (feed c ∷ (acts ++ dispatch ∷ draw ∷ front)) ++ draw ∷ take_code ∷ []
one_round c acts next front e =
    ap (λ r. feed c ∷ (acts ++ dispatch ∷ draw ∷ r)) e
    ∙ ap (◌∷◌ (feed c)) (sym (append_assoc acts (dispatch ∷ draw ∷ front) (draw ∷ take_code ∷ [])))

-- However many messages each drain of the channel finds, the pump feeds the terminal every chunk in front
-- of the end of the output, in order and once, then draws a last frame and handles the end, once; one
-- round more than there are chunks is fuel enough.
pub pump-Delivered :
    (fuel : ℕ) (available : ℕ → ℕ) (chunks : List Bytes) (others : List Message)
    → length chunks < fuel
    → Delivered chunks (pump fuel available (channel chunks others))
unfolding pump fed codes
pump-Delivered zero available chunks others h = absurd (omega arith)
pump-Delivered (suc n) available [] others h = record {
  front = [];
  split = refl;
  all_fed = refl;
  once = refl;
}
pump-Delivered (suc n) available (c ∷ chunks) others h =
    elim (drain-Drained (available n) chunks others) [
      | met acts e f k ↦ record {
        front = feed c ∷ (acts ++ dispatch ∷ draw ∷ []);
        split =
            ap (λ d. finish_round c d (λ rest. pump n available rest)) e
            ∙ (ap (◌∷◌ (feed c))
                (sym (append_assoc acts (dispatch ∷ draw ∷ []) (draw ∷ take_code ∷ []))));
        all_fed = ap (◌∷◌ c) (fed-append acts (dispatch ∷ draw ∷ []) ∙ append_nil (fed acts) ∙ f);
        once = omega (arith, codes-append acts (dispatch ∷ draw ∷ []), k);
      }
      | stopped acts later e f k short ↦
          let rest = pump-Delivered n available later others (omega arith) in
          record {
            front = feed c ∷ (acts ++ dispatch ∷ draw ∷ rest.front);
            split =
                ap (λ d. finish_round c d (λ rest. pump n available rest)) e
                ∙ (one_round c acts _ rest.front rest.split);
            all_fed = ap (◌∷◌ c) (
                fed-append acts (dispatch ∷ draw ∷ rest.front)
                ∙ ap (λ l. fed acts ++ l) rest.all_fed
                ∙ f);
            once = omega (arith, codes-append acts (dispatch ∷ draw ∷ rest.front), k, rest.once);
          }
    ]
