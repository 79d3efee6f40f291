-- ===== src/Lib.antt =====
-- Models of the core of mini-router's program mr (mr/), a router's configuration manager: it renders
-- system files from /etc/mini-router/router.yaml and puts them in place as one transaction, which is
-- undone when a step fails, when nobody confirms it in time, or when the router goes down halfway.
--
-- The parts and their files:
--   * Apply is mr/apply.go with the snapshots of mr/mod_sys_backup.go and the revisions of
--     mr/history.go. Apply/Disk is what survives a power cut; Apply/System is what the code takes
--     from the machine and the rest of mr, each of whose failures may come at any moment;
--     Apply/Action is the language of programs that change the disk, one moment per change, on a
--     machine whose power may go at any moment, with a Hoare logic for it in Apply/Action/Triple.
--     Apply/Pending is the marker (readPending, pendingBlocks, claimPending, setPending,
--     clearPending, startRevert, armConfirm), Apply/Archive the snapshots (writeSnapshotFrom,
--     pruneHistory, acceptedSources, writeAtomic), Apply/Restore their way back (restore,
--     keepPassword, keepRejected, stageAccepted, acceptStaged, dropStaged, undoLists),
--     Apply/Revision the records (newRevision, setResult), Apply/Rollback rollback,
--     rollbackAtBoot, linkRunlevel, reconcileRunlevel and fwLoad, Apply/Plan plan and Plan.Empty,
--     Apply/Run applyWith, ApplyCandidate's install and the cleanup of orphans, Apply/Confirm
--     confirm, rollbackIfUnconfirmed and revertNow, Apply/Command rollbackCommand.
--   * CfgPath/Syntax is the syntax of config paths in mr/cfgpath.go (parsePath, fmtPath, fmtKey,
--     fmtSel), on lists of bytes; package strconv is the record Quoting. CfgPath/Tree is
--     the config's tree as data (seqKey, findItem), CfgPath/Tree/Edit its edits (nodeAt, applyOp,
--     addItem).
--   * Diff is lineOps and the trimming of fileDiff in mr/history.go, on lists of lines.
--   * Risk is serviceEffect, classifyRisk and planRisk of mr/risk.go.
--   * Token is actionMatch, permits, fromOK, findToken and tokenAuth of mr/api_token.go; hashes,
--     times, addresses and the counters of failed logins are the record Outside.
--   * Watchcat is wcStep and wcTick of mr/mod_sys_watchcat.go, Watchcat/Config its wcDefaults and
--     wcValidate.
--   * Login is the throttle of mr/api_login.go with loginWait of mr/api_token.go, on the records of
--     all sources that the CGI processes share.
--   * Cron is parseCronField, checkCron, cronMatch and schedOff of mr/mod_sys_cron.go, Cron/Crontab its
--     scheduleService, validateSchedules and the schedules' lines of renderCronLines.
--   * Dial is the dial order of mr/mod_net_dial.go: its validation, the waiting before a dial, and
--     the restore with its file of last redials.
--   * FwTime is fwTimeMatches of mr/mod_fw_time.go with fwParseWindow of mr/mod_fw.go, FwTime/Matches
--     its second half.
--   * Steer is the decisions and the state of band steering in mr/mod_wifi_steer.go.
--   * Strings is what these use of Go's package strings, on ASCII text.
--   * Prelude holds the shared names, lists, tests and byte strings. The modules named Tests hold
--     small concrete inputs and runs.
--
-- Dial, FwTime and Cron share the reading of numbers (Cron go_atoi, digits_from), and the crontab line
-- of a dial restore is one that crond runs by the same rules as the schedules.
--
-- The apply uses the other parts only through the disk and the record System: render, validation,
-- the services and the YAML decoder are fields of it. A confirmation, the timer and the boot meet
-- the apply through the marker; each of them is one transition under lockPending.
--
-- Bounds and fuel: parse_path runs scan on as many rounds as the text has bytes, and each round takes
-- at least one. wait_up looks once for every second up to the deadline and once more, as each look
-- comes a second after the one before. pieces has as many rounds as the interval has seconds, and
-- each round moves its start. Times and counts are natural numbers, but for
-- dial_wait; 64-bit overflow of times is not modelled. Errors that the source ignores are kept as
-- failures: of the removal of the marker (System.remove_fails), of the files of the watchcat and of the
-- last redials, and of the login file, which a failed write leaves as it was or empty.
-- The table of lineOps is kept row by row, from the last line up.
--
-- Not modelled: printed text and logs, file modes, the order of Go's map iteration where the code
-- sorts afterwards, service restarts beyond their failure, the flags of rollbackCommand, the YAML
-- text and comments around the tree edits, the tasks that crond runs, time zones with summer time, the
-- modules that render text or run commands, and the HTTP API.
pub mod Apply
pub mod CfgPath
pub mod Cron
pub mod Dial
pub mod Diff
pub mod FwTime
pub mod Login
pub mod Prelude
pub mod Risk
pub mod Steer
pub mod Strings
pub mod Token
pub mod Watchcat
