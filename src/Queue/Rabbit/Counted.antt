-- ===== src/Queue/Rabbit/Counted.antt =====
-- internal/queue: what the two publishers count.
use go_agent_chat_server.Base.{ℕ, ◌≡◌, refl, ◌∙◌, ◌≢◌, ap, Option, none, some}
use go_agent_chat_server.Base.Int.{ℤ, pos, ◌+ℤ◌}
use go_agent_chat_server.Base.Exec.{Exec, Err, Result, ok, err, fail, ◌>>◌}
use go_agent_chat_server.Base.Exec.Leads.{Ends, Leads, Leads-on_error, Leads-of_result}
use go_agent_chat_server.Base.Text.{Text}
use go_agent_chat_server.Metrics.{
  Process, Counter, bumped_self, bumped_other, add, call, rabbitmq_publish_total,
  rabbitmq_publish_failed_total, chat_job_published_total, chat_job_publish_failed_total,
}
use go_agent_chat_server.Queue.Event.{Event}
use go_agent_chat_server.Queue.ChatTask.{
  Return, Confirmation, acked, nacked, closed, context_done, ChatTask, Channel, TaskQueue, TaskJson,
  publish_failed, check_confirm, check_return, publish_body, publish_stamped, publish_chat_task,
}
use go_agent_chat_server.Queue.Rabbit.{
  event_failed, check_event_confirm, check_event_return, poll_event, publish_event_body,
  publish_stamped_event, publish,
}

-- The two counters read `a` and `b`.
pub record Reads {S : Type 0} (total failed : Counter) (a b : ℤ) (p : Process S) : Type 0 where
  pub total_count : p.counters total ≡ a
  pub failed_count : p.counters failed ≡ b

-- One counter reads `b`.
pub record Read {S : Type 0} (failed : Counter) (b : ℤ) (p : Process S) : Type 0 where
  pub count : p.counters failed ≡ b

-- A publication that succeeds counts one publication and no failure; one that fails counts one
-- failure.
abbrev pub Counts : {S A : Type 0} → Counter → Counter → Process S → Result A × Process S → Type 0
Counts total failed p =
    Ends (λ _ q. Reads total failed (p.counters total +ℤ pos 1) (p.counters failed) q)
      (Read failed (p.counters failed +ℤ pos 1))

-- The rest of a publication behind the count.
abbrev Finishes : {S A : Type 0} → Counter → Counter → ℤ → ℤ → Exec (Process S) A → Type 0
Finishes total failed a b m =
    Leads (Reads total failed a b) m (λ _ q. Reads total failed a b q) (Read failed (b +ℤ pos 1))

-- A whole publication.
abbrev Publishes : {S A : Type 0} → Counter → Counter → ℤ → ℤ → Exec (Process S) A → Type 0
Publishes total failed a b m =
    Leads (Reads total failed a b) m (λ _ q. Reads total failed (a +ℤ pos 1) b q)
      (Read failed (b +ℤ pos 1))

module _ {S : Type 0} (total failed : Counter) {a b : ℤ} where
  -- What is outside the process does not matter.
  moved :
      (s : S) (p : Process S)
      → Reads total failed a b p
      → Reads total failed a b (record p { outside = s })
  moved s p h = record { total_count = h.total_count; failed_count = h.failed_count }

  counted_call :
      {A : Type 0} (r : Result A × S) (p : Process S)
      → Reads total failed a b p
      → Ends {A = A}
          (λ _ q. Reads total failed a b q)
          (Reads total failed a b)
          (r.0, record p { outside = r.1 })
  counted_call (ok x, s) p h = moved s p h
  counted_call (err e, s) p h = moved s p h

  call-Leads :
      {A : Type 0} (m : Exec S A)
      → Leads
          (Reads total failed a b)
          (call m)
          (λ _ q. Reads total failed a b q)
          (Reads total failed a b)
  unfolding call
  call-Leads m = record { at = λ p h. counted_call (m p.outside) p h }

  -- The count of a failure, and its error.
  failure-Leads :
      {A : Type 0} {Q : A → Process S → Type 0} (e : Err)
      → Leads (Reads total failed a b) (add failed (pos 1) >> fail e) Q (Read failed (b +ℤ pos 1))
  unfolding add
  failure-Leads e = record {
    at = λ p h. record {
      count = bumped_self p.counters failed (pos 1) ∙ ap (λ z. z +ℤ pos 1) h.failed_count;
    };
  }

  counted :
      failed ≢ total
      → (p : Process S) → Reads total failed a b p
      → Reads total failed (a +ℤ pos 1) b (add total (pos 1) p).1
  unfolding add
  counted distinct p h = record {
    total_count = bumped_self p.counters total (pos 1) ∙ ap (λ z. z +ℤ pos 1) h.total_count;
    failed_count = bumped_other p.counters total failed (pos 1) distinct ∙ h.failed_count;
  }

distinct_event : rabbitmq_publish_failed_total ≢ rabbitmq_publish_total
distinct_event e = cc

distinct_task : chat_job_publish_failed_total ≢ chat_job_published_total
distinct_task e = cc

module _ {S : Type 0} (a b : ℤ) where
  event_failed-Finishes :
      (e : Err)
      → Finishes {S = S} {A = Unit {0}} rabbitmq_publish_total rabbitmq_publish_failed_total a b
          (event_failed e)
  unfolding event_failed
  event_failed-Finishes e = failure-Leads _ _ e

  check_event_confirm-Finishes :
      (c : Confirmation)
      → Finishes {S = S} rabbitmq_publish_total rabbitmq_publish_failed_total a b
          (check_event_confirm c)
  unfolding check_event_confirm
  check_event_confirm-Finishes acked = record { at = λ p h. h }
  check_event_confirm-Finishes nacked = event_failed-Finishes _
  check_event_confirm-Finishes closed = event_failed-Finishes _
  check_event_confirm-Finishes (context_done e) = event_failed-Finishes e

  task_failed-Finishes :
      (e : Err)
      → Finishes {S = S} {A = Unit {0}} chat_job_published_total chat_job_publish_failed_total a b
          (publish_failed e)
  unfolding publish_failed
  task_failed-Finishes e = failure-Leads _ _ e

  check_confirm-Finishes :
      (c : Confirmation)
      → Finishes {S = S} chat_job_published_total chat_job_publish_failed_total a b
          (check_confirm c)
  unfolding check_confirm
  check_confirm-Finishes acked = record { at = λ p h. h }
  check_confirm-Finishes nacked = task_failed-Finishes _
  check_confirm-Finishes closed = task_failed-Finishes _
  check_confirm-Finishes (context_done e) = task_failed-Finishes e

module _ {S : Type 0} (channel : Channel S) (a b : ℤ) where
  check_event_return-Finishes :
      (r : Option Return)
      → Finishes rabbitmq_publish_total rabbitmq_publish_failed_total a b
          (check_event_return channel r)
  unfolding check_event_return
  check_event_return-Finishes (some r) = record { at = λ p h. (event_failed-Finishes a b _).at p h }
  check_event_return-Finishes none = record {
    at = λ p h. (check_event_confirm-Finishes a b _).at _ (moved _ _ _ p h);
  }

  poll_event-Finishes :
      Finishes rabbitmq_publish_total rabbitmq_publish_failed_total a b (poll_event channel)
  unfolding poll_event
  poll_event-Finishes = record {
    at = λ p h. (check_event_return-Finishes _).at _ (moved _ _ _ p h);
  }

module _ {S : Type 0} (channel : Channel S) (json : TaskJson) (now : S → ℕ) (q : TaskQueue)
    (a b : ℤ) where
  check_return-Finishes :
      (r : Option Return)
      → Finishes chat_job_published_total chat_job_publish_failed_total a b
          (check_return channel json now q r)
  unfolding check_return
  check_return-Finishes (some r) = record { at = λ p h. (task_failed-Finishes a b _).at p h }
  check_return-Finishes none = record {
    at = λ p h. (check_confirm-Finishes a b _).at _ (moved _ _ _ p h);
  }

module _ {S : Type 0} (channel : Channel S) (encode : Event → Result Text) (now : S → ℕ)
    (q : TaskQueue) (a b : ℤ) where
  publish_event_body-Publishes :
      (event : Event) (body : Text)
      → Publishes rabbitmq_publish_total rabbitmq_publish_failed_total a b
          (publish_event_body channel encode now q event body)
  unfolding publish_event_body add
  publish_event_body-Publishes event body = record {
    at = λ p h.
        (Leads-on_error _ _ _ (call-Leads _ _ _) (λ e. event_failed-Finishes _ b _)
            (λ _. poll_event-Finishes channel _ b)).at
          _ (counted _ _ distinct_event p h);
  }

  publish_stamped_event-Publishes :
      (event : Event)
      → Publishes rabbitmq_publish_total rabbitmq_publish_failed_total a b
          (publish_stamped_event channel encode now q event)
  unfolding publish_stamped_event event_failed
  publish_stamped_event-Publishes event =
      Leads-on_error _ _ _ (Leads-of_result (encode event)) (λ e. failure-Leads _ _ _)
        (λ body. publish_event_body-Publishes event body)

module _ {S : Type 0} (channel : Channel S) (json : TaskJson) (now : S → ℕ) (q : TaskQueue)
    (a b : ℤ) where
  publish_body-Publishes :
      (task : ChatTask) (body : Text)
      → Publishes chat_job_published_total chat_job_publish_failed_total a b
          (publish_body channel json now q task body)
  unfolding publish_body add
  publish_body-Publishes task body = record {
    at = λ p h.
        (Leads-on_error _ _ _ (call-Leads _ _ _) (λ e. task_failed-Finishes _ b _)
            (λ _. record {
              at = λ p' h'.
                  (check_return-Finishes channel json now q _ b _).at _ (moved _ _ _ p' h');
            })).at
          _ (counted _ _ distinct_task p h);
  }

  publish_stamped-Publishes :
      (task : ChatTask)
      → Publishes chat_job_published_total chat_job_publish_failed_total a b
          (publish_stamped channel json now q task)
  unfolding publish_stamped publish_failed
  publish_stamped-Publishes task =
      Leads-on_error _ _ _ (Leads-of_result (json.marshal_task task)) (λ e. failure-Leads _ _ _)
        (λ body. publish_body-Publishes task body)

-- Both publishers count one publication and no failure when they succeed, and one failure when they
-- fail: when the message cannot be encoded or sent, comes back as unroutable, is not confirmed, or
-- the context ends.
pub publish-Counts :
    {S : Type 0} (channel : Channel S) (encode : Event → Result Text) (json : TaskJson)
    (now : S → ℕ) (events tasks : TaskQueue) (event : Event) (task : ChatTask) (p : Process S)
    → Counts rabbitmq_publish_total rabbitmq_publish_failed_total p
        (publish channel encode now events event p)
      × Counts chat_job_published_total chat_job_publish_failed_total p
          (publish_chat_task channel json now tasks task p)
unfolding publish publish_chat_task
publish-Counts channel encode json now events tasks event task p = (
  (publish_stamped_event-Publishes channel encode now events _ _ _).at p
      (record { total_count = refl; failed_count = refl }),
  (publish_stamped-Publishes channel json now tasks _ _ _).at p
      (record { total_count = refl; failed_count = refl }),
)
