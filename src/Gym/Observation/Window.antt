-- ===== src/Gym/Observation/Window.antt =====
-- What an observation window holds.
use trolly.Prelude.{
  ℕ, zero, suc, ◌+◌, ◌-◌, ◌≤◌, ◌<◌, ◌≡◌, refl, sym, ap, ◌∙◌, List, [], ◌∷◌, ◌++◌, if◌then◌else◌,
  eqb, length, drop, length-append, length-tail, append_assoc, append-nil, tail, arith,
}
use trolly.Gym.Observation.{ObservationWindow, new_window, push_frame}
use trolly.Gym.Ring.Recent.{push_recent}
use trolly.Gym.Ring.History.{fold_recent, fold_recent_lem}

module _ {T : Type 0} where
  -- A push for each frame in turn.
  unfoldable pub push_frames : ObservationWindow T → List (List T) → ObservationWindow T
  push_frames w [] = w
  push_frames w (f ∷ fs) = push_frames (push_frame w f) fs

  push_frames_recent :
      (w : ObservationWindow T) (fs : List (List T))
      → 0 < w.capacity
      → length w.frames ≤ w.capacity
      → (push_frames w fs).frames ≡ fold_recent w.capacity w.frames fs
  unfolding push_frames push_frame
  push_frames_recent w [] p le = refl
  push_frames_recent w (f ∷ fs) p le =
      let same : (push_frame w f).frames ≡ push_recent w.capacity w.frames f = ground arith in
      let fits : length (push_frame w f).frames ≤ w.capacity = ground (
        arith,
        length-append w.frames (f ∷ []),
        length-append (tail w.frames) (f ∷ []),
        length-tail w.frames,
      ) in
      push_frames_recent (push_frame w f) fs p fits ∙ ap (λ h. fold_recent w.capacity h fs) same

  -- A window of capacity 0 that holds a frame drops none.
  push_frames_zero :
      (w : ObservationWindow T) (fs : List (List T))
      → w.capacity ≡ 0
      → 0 < length w.frames
      → (push_frames w fs).frames ≡ w.frames ++ fs
  unfolding push_frames push_frame
  push_frames_zero w [] z p = sym (append-nil w.frames)
  push_frames_zero w (f ∷ fs) z p =
      let same : (push_frame w f).frames ≡ w.frames ++ f ∷ [] = ground arith in
      let more : 0 < length (push_frame w f).frames =
        rw same (ground (arith, length-append w.frames (f ∷ []))) in
      push_frames_zero (push_frame w f) fs z more
      ∙ (ap (λ h. h ++ fs) same ∙ append_assoc w.frames (f ∷ []) fs)

  unbounded : (fs : List (List T)) → (push_frames (new_window 0) fs).frames ≡ fs
  unfolding push_frames push_frame new_window
  unbounded [] = refl
  unbounded (f ∷ fs) = push_frames_zero (push_frame (new_window 0) f) fs refl (omega arith)

  bounded :
      (capacity : ℕ) (fs : List (List T))
      → 0 < capacity
      → (push_frames (new_window capacity) fs).frames ≡ drop (length fs - capacity) fs
  unfolding new_window
  bounded capacity fs p =
      let none_held : length {A = List T} [] + length fs ≡ length fs = omega arith in
      push_frames_recent (new_window capacity) fs p (omega arith)
      ∙ rw none_held at (fold_recent_lem capacity [] fs p (omega arith))

  -- After any frames a window holds the last ones, `capacity` of them at most and oldest first;
  -- a window of capacity 0 holds all.
  pub frames-push_frames :
      (capacity : ℕ) (fs : List (List T))
      → (push_frames (new_window capacity) fs).frames
        ≡ (if eqb capacity 0 then fs else drop (length fs - capacity) fs)
  frames-push_frames zero fs = unbounded fs
  frames-push_frames (suc n) fs = ground (arith, bounded (suc n) fs (omega arith))

  pub push_frames-snoc :
      (w : ObservationWindow T) (fs : List (List T)) (f : List T)
      → push_frames w (fs ++ f ∷ []) ≡ push_frame (push_frames w fs) f
  unfolding push_frames
  push_frames-snoc w [] f = refl
  push_frames-snoc w (g ∷ fs) f = push_frames-snoc (push_frame w g) fs f
