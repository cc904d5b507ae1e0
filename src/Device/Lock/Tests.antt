-- ===== src/Device/Lock/Tests.antt =====
-- A run of the lock of boringtun/src/device/dev_lock.rs: the thread 0 reads, and then writes.
use boringtun.Prelude.{◌≡◌, refl, true, false, ◌==◌, Bool-cases, inl, inr, arith}
use boringtun.Device.Lock.{
  outside, reading, claiming, claimed, preparing, upgrading, writing, is_reader, is_writer, Lock,
  read, try_writeable, claim, relock, prepared, write, put_place, moved, new, Reachable, start,
  after,
}
use boringtun.Device.Lock.Exclusion.{is_owner, Holding, held, held_after, holder_alone}

-- The thread 0 reads, then claims the lock.
abbrev claimed_0 : Lock
claimed_0 = record {
  wants_write = true;
  places = put_place (put_place (put_place (λ t. outside) 0 reading) 0 claiming) 0 claimed;
}

reached : Reachable claimed_0
unfolding new
reached =
    after (after (after start (moved 0 read (λ u. refl))) (moved 0 try_writeable tt))
      (moved 0 claim tt)

-- It goes on until it writes.
abbrev preparing_0 : Lock
preparing_0 = record { wants_write = true; places = put_place claimed_0.places 0 preparing }

abbrev upgrading_0 : Lock
upgrading_0 = record { wants_write = true; places = put_place preparing_0.places 0 upgrading }

abbrev writing_0 : Lock
writing_0 = record { wants_write = true; places = put_place upgrading_0.places 0 writing }

holding : Holding 0 claimed_0 writing_0
holding =
    held_after
      (held_after
        (held_after (held refl)
          (moved 0 relock
            (λ u. elim (Bool-cases (u == 0)) [ inl e ↦ rw e refl | inr e ↦ rw e refl ]))
          refl)
        (moved 0 prepared tt) refl)
      (moved 0 write
        (λ u. elim (Bool-cases (u == 0)) [ inl e ↦ rw e (refl, refl) | inr e ↦ rw e (refl, refl) ]))
      refl

holder_alone_example :
    (is_reader (writing_0.places 1) ≡ false)
    × (is_writer (writing_0.places 1) ≡ false)
    × (is_owner (writing_0.places 1) ≡ false)
holder_alone_example =
    holder_alone {s = claimed_0} {s' = writing_0} 0 1 reached holding (λ e. omega (arith, e)) refl
