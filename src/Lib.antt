-- ===== src/Lib.antt =====
-- A model of kubergrunt, a command line tool for Kubernetes clusters on Amazon EKS, and theorems about
-- it.
--
-- The program and its files. `kubergrunt eks deploy` replaces the worker nodes of a cluster: it looks
-- the Auto Scaling Group up, raises its maximum size, scales it up, waits for the new nodes and for
-- their registration to the load balancers, cordons and drains the old nodes, detaches and terminates
-- the old instances, and restores the maximum size. After each stage the state is written to a file,
-- from which a later run picks up.
-- - Eks/Deploy: eks/deploy.go and eks/deploy_state.go. RollOutDeployment is roll_out_deployment, and
--   each method of DeployState is a function from a session to code that returns the next session.
-- - Eks/AutoScaling: eks/asg.go. Eks/Instances: eks/instances.go. Eks/LoadBalancers: eks/elb.go and
--   waitForAnyInstancesRegisteredToELB of eks/asg.go.
-- - Kubectl/Nodes: kubectl/node.go. Kubectl/Services: kubectl/service.go. Kubectl/Options,
--   Kubectl/Config, Kubectl/Command: kubectl/options.go, config.go, client.go and command.go.
-- - Eks/Sync: eks/sync.go, `kubergrunt eks sync-core-components`. Eks/Sync/Versions has the tables,
--   Eks/Sync/Images kube-proxy and CoreDNS, Eks/Sync/VpcCni the VPC CNI plugin, and Eks/Sync/Components
--   the command. Eks/CorednsPermissions has the permissions of CoreDNS that it looks after.
-- - Eks/Coredns: eks/coredns.go. Eks/Drain: eks/drain.go. Eks/VerifyCluster: eks/cluster.go.
-- - Eks/Cleanup: eks/cleanup.go.
-- - Eks/EksBuild: of eks/sync.go and eksawshelper/ecr.go, the search for the latest build of an image.
-- - EksAwsHelper: eksawshelper/arn.go and cluster.go.
-- - Tls/Options: of tls/options.go, the validation.
-- - Cmd: the command line. Cmd/Cli: the values of the flags. Cmd/Common and Cmd/Subject: cmd/common.go.
--   Cmd/Eks: cmd/eks.go. Cmd/Tags: tagArgsToMap of cmd/tls.go.
-- - Cloud: the data of the services' APIs, the errors, the requests, the monad in which the code is
--   written, and the rules to reason about it. Strings: Go maps as association lists, strings.Split and
--   strings.Join.
-- - Tests: a small cluster, and the theorems applied in it.
--
-- How the code is modelled. Code is a function from the history, the list of the requests made so far,
-- the latest first, to an outcome and the later history. An outcome is a value, an error, a panic, or
-- that the code never returns. Each call of AWS, of Kubernetes, of a shell or of the file system is a
-- request (Cloud.Request.Call). The record Env holds what is outside the program: how each request is
-- answered, which may depend on the whole history, and the library functions that the program calls
-- (collections, JSON, multierror, base64, semantic versions, regular expressions), and the scheduler of
-- the goroutines. What a theorem assumes of them is a record of laws (Eks.Deploy.Trace.EnvLaws,
-- Cloud.Retry.RetryLaws, Cloud.Collections.FindsJust, Kubectl.Nodes.Order.SchedulerLaws).
--
-- Bounds. Capacities are int64 bit patterns with wrap-around. Numbers of retries are not negative and
-- the loops over them are recursions on them. The loops over the pages of a listing have max_pages as
-- fuel; where it runs out the code counts as never returning, so that theorems on what happens in a
-- returning run do not depend on it. The number of waves of ten instances and the seconds of a sleep are
-- computed in float64 with its rounding (Prelude.Float). A default number of retries that comes out
-- negative counts as 0.
--
-- Goroutines. Draining and cordoning start a goroutine for each node, which runs one kubectl command.
-- They run in any order, which a parameter (Env.scheduled) picks at each start. A command of one is
-- not interrupted by another; where the options name a kubeconfig, it is one request. The goroutines of
-- the wait for target groups run in the order in which they are started.
--
-- Not modelled: loggers, and the stack traces that are added to errors. The generation of TLS
-- certificates, ingresses, secrets, and the help texts of the command line are not part of the model.
pub mod Prelude
pub mod Cloud
pub mod Strings
pub mod EksAwsHelper
pub mod Kubectl
pub mod Eks
pub mod Tls
pub mod Cmd
pub mod Tests
