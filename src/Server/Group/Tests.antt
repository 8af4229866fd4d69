-- ===== src/Server/Group/Tests.antt =====
-- Runs of a group of servers.
use inspiring_vacations_agen.Common.{
  ◌≡◌, refl, ◌⊎◌, true, false, Option, none, some, [], ◌∷◌, String, arith, ap, ◌≤◌, length, ◌*◌,
}
use inspiring_vacations_agen.Server.Group.{
  ErrGroup, Listener, listening, Closer, awaiting, shutting_down, Member, Group, is_done, Move,
  closes, wakes, shut, go_listen_and_serve, listener_returns,
}
use inspiring_vacations_agen.Server.Group.Shutdown.{AllReturned, stay, more, shutdown_ends}

-- An errgroup that keeps the first error.
abbrev first_error : Option String → Option String → Option String
first_error none g = g
first_error (some e) none = some e
first_error (some e) (some d) = some d

abbrev group : ErrGroup
group = record {
  Eg = Option String;
  with_context = none;
  returned = first_error;
  wait = λ g. g;
  wait-with_context = refl;
  wait-nil = λ g. refl;
  wait-first = λ e g h. ap (first_error (some e)) h;
  wait-later = λ d e g h. ap (first_error (some e)) h;
}

abbrev up : Member
up = record { listener = listening; closer = awaiting }

abbrev one_up : Group group
one_up = record { stopped = false; eg = none; members = up ∷ [] }

-- One server, interrupted, to its end.
abbrev stopping : Group group
stopping = record one_up { stopped = true }

abbrev awake : Group group
awake = record stopping { members = record up { closer = shutting_down } ∷ [] }

abbrev closed : Group group
closed = record awake {
  members = record { listener = Listener.finished; closer = shutting_down } ∷ [];
}

abbrev ended : Group group
ended = record closed {
  eg = some "context canceled";
  members = record { listener = Listener.finished; closer = Closer.finished } ∷ [];
}

wake : Move group stopping awake
unfolding is_done
wake = wakes [] [] up refl refl refl

close : Move group awake closed
unfolding listener_returns
close = closes [] [] (record up { closer = shutting_down }) refl refl (λ e. ground arith)

end : Move group closed ended
end = shut [] [] (record { listener = Listener.finished; closer = shutting_down }) refl refl

shutdown_ends_example :
    (2 ≤ 3 * length stopping.members)
    × (AllReturned closed.members ⊎ ((k : Group group) × Move group closed k))
unfolding is_done
shutdown_ends_example = shutdown_ends group refl (more (more stay wake) close)

-- Port "0" adds no server, and a server that is not made stops the group.
disabled : go_listen_and_serve group "0" true one_up ≡ one_up
unfolding go_listen_and_serve
disabled = refl

not_made : go_listen_and_serve group "8080" false one_up ≡ stopping
unfolding go_listen_and_serve
not_made = refl
