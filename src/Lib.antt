-- ===== src/Lib.antt =====
-- The controllers of the Cluster Stack Provider OpenStack, the manager that runs them, and the tool
-- for the release notes.
--
-- A cluster stack release names node images. For an OpenStackClusterStackRelease the one controller
-- downloads the release's assets and keeps an OpenStackNodeImageRelease for each node image; for an
-- OpenStackNodeImageRelease the other one creates the image in Glance, has it imported and waits
-- until it is active. They work together through the API server alone: the first creates what the
-- second reconciles, and reads the readiness that the second sets.
--
-- - Base: list helpers, Boolean tests, 64-bit signed numbers (Base.Int), and text (Base.Text).
-- - Api: the custom resources of api/v1alpha1 (openstacknodeimagerelease_types.go,
--   openstackclusterstackrelease_types.go), and the condition types and reasons of
--   conditions_const.go. A nil pointer is `none`. The two status types are alike and are one record.
-- - Runtime: what both controllers are made of. `Call` has a constructor for each call that leaves
--   the program, with the events and the mutex among them, and a `History` is all calls so far, the
--   latest first. `Env` holds what the source only calls: the API server's client, the conditions of
--   Cluster API, YAML, gophercloud, and the release and assets packages of cluster-stack-operator.
--   Its functions answer from the whole history, so that nothing is assumed about how the answers
--   change. `Task` is a function with results `(value, err)`; `Body` is a part of `Reconcile` that
--   changes the object in hand, makes calls, and goes on, returns early or panics.
--   Runtime.Reconcile has the beginning and the deferred function of the two `Reconcile` methods.
-- - NodeImage: internal/controller/openstacknodeimagerelease_controller.go. NodeImage.Cloud has
--   `getCloudFromSecret`, NodeImage.Glance has `getImageID`, `createImage` and `importImage`;
--   `Reconcile` is cut into NodeImage.Connect (up to the image's id), NodeImage.Import (no image is
--   found), NodeImage.Await (one is found) and put together in NodeImage.Reconcile.
--   NodeImage.Convergence has one request that is taken up again as long as `Reconcile` asks for it
--   (Runtime.Requeue), with an API server and a Glance that serve it (NodeImage.Service),
--   and NodeImage.Stuck one whose image is never imported.
-- - ClusterStack: internal/controller/openstackclusterstackrelease_controller.go. ClusterStack.Tag
--   has the cutting of the release tag, ClusterStack.Owner the four functions about owners,
--   ClusterStack.Assets `downloadReleaseAssets` and `getNodeImagesFromLocal`; `Reconcile` is cut
--   into ClusterStack.Download (the assets are missing), ClusterStack.NodeImages (they are there) and
--   put together in ClusterStack.Reconcile. ClusterStack.Convergence has one request that is taken up
--   again, where all is served (ClusterStack.Service).
-- - System: both controllers together. System.Runs has the runs of any reconciliations one after the
--   other. System.Workers has any number of workers that reconcile at the same time: each makes the
--   calls of such a run, whatever they are answered, and any worker's next call may come next, but
--   that `Lock` waits for the mutex. What a creation in a run was answered is read off from `Env`
--   (Runtime.Attempts).
-- - Manager: cmd/main.go. Manager.Flags has the flags, Manager.Main `init` and `main`. The actions
--   are recorded, and a function of those before it says whether one succeeds.
-- - DeepCopy: api/v1alpha1/zz_generated.deepcopy.go, on a memory whose cells hold what pointers,
--   slices and maps lead to (DeepCopy.Memory). DeepCopy.Structs and DeepCopy.Cells have the types of
--   api/v1alpha1 as they lie in memory, with those of openstackclusterstackreleasetemplate_types.go;
--   DeepCopy.Functions and DeepCopy.Lists have the functions, a `DeepCopyInto` as `copy_<type>`, a
--   `DeepCopy` as `deep_copy_<type>`. These types are apart from those of Api, in which a pointer
--   cannot be told from its target.
-- - Notes: hack/tools/release/notes.go, the tool that prints the release notes. Notes.Commits has
--   `lastTag`, `firstCommit` and the reading of git's log, Notes.Sections the sorting of the titles,
--   Notes.Report the printing and `run`. The record `Git` holds what the three git commands print.
--   Notes.GoText has what the tool uses of Go's packages strings and fmt, on characters where Go has
--   bytes: all texts that the tool looks for are whole characters.
-- - Examples: runs in a small world, and the theorems at concrete data.
-- The other files under NodeImage, ClusterStack, DeepCopy and Notes hold theorems.
--
-- Bounds. `time.Duration(n) * time.Minute` is a product of 64-bit integers that wraps
-- (`mul_int64`), a difference of times saturates (`sub_times`), and the greatest number of minutes
-- without a wrap is `most_minutes`. The one fuel is that of `decimal`: a number is printed with as
-- much fuel as itself, and has no more digits than that. `follow` is given a number of
-- reconciliations, and its theorems say how many are enough. The loops are structural recursion.
--
-- Not modelled: logging; contexts, cancellation and signals; `SetupWithManager`, the registration of
-- the types with the scheme, and the parsing of the command line, all of which only call libraries;
-- the tests and their helpers; the vendored libraries, which are the parameters of `Env`, of the
-- start of the manager and of the deep copies. `errors.Is` is seen only through `is_not_found`. The
-- path of a file is read through `join_path`, which stands for `filepath.Join` and `filepath.Clean`.
-- A reconciliation is interleaved with others by its calls: what it does between two calls is
-- private to it. The workqueue is seen only as far as it takes a request up again when it is asked.
pub mod Base
pub mod Api
pub mod Runtime
pub mod NodeImage
pub mod ClusterStack
pub mod System
pub mod Manager
pub mod DeepCopy
pub mod Notes
pub mod Examples
